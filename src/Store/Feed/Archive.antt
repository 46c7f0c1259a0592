-- ===== src/Store/Feed/Archive.antt =====
-- The move of a prefix of the feed into its archive: `ArchivePacketFeedPrefix` of
-- internal/infrastructure/sqlite/packet_issuance_store.go.
use chrono_desk.Prelude.{
  List, String, [], ap, arith, length, not, refl, some, suc, sym, ℕ, ◌++◌, ◌+◌, ◌∙◌, ◌∷◌, ◌≡◌, ◌≤◌,
  Option, none, is_some, true, ◌-◌, subst, not-false,
}
use chrono_desk.Store.Feed.Numbers.{archived_rows, first_of, first_or_one, last_of, numbers, range}
use chrono_desk.Store.Feed.{
  PacketFeedBounds, archive_batch, find_head, head_of, in_range, insert_archive, keep_rows,
  set_first, PacketFeedArchiveResult, advance_first, archive_packet_feed_prefix, bounds_of,
  order_rows, packet_feed_bounds, archive_range,
}
use chrono_desk.Store.Tables.{ArchivedRow, FeedHead, FeedRow, Tables}
use chrono_desk.Store.Db.{
  after_done, done, done->>=, effect->>=, raise_if->>=, or_raise->>=, read->>=, ran->>=,
}
use chrono_desk.Prelude.Classes.{string_eq, nat_eq, eq_iff, eq_refl}

unfoldable pub archived_of : String → ℕ → List FeedRow → List ArchivedRow
archived_of e at [] = []
archived_of e at (r ∷ rs) =
    record { row = record r { event_id = e }; archived_at = at } ∷ archived_of e at rs

insert_archive-eq-done :
    (r : FeedRow) (at : ℕ) (s : Tables) {t : Tables}
    → insert_archive r at s ≡ done tt t
    → t
      ≡ record s { feed_archives = s.feed_archives ++ (record { row = r; archived_at = at } ∷ []) }
unfolding insert_archive
insert_archive-eq-done r at s h = after_done (raise_if->>= _ _ _ _ (done->>= _ _ _ h)).1

append_assoc :
    (xs : List ArchivedRow) (x : ArchivedRow) (ys : List ArchivedRow)
    → (xs ++ (x ∷ [])) ++ ys ≡ xs ++ (x ∷ ys)
append_assoc [] x ys = refl
append_assoc (z ∷ zs) x ys = ap (λ rest. z ∷ rest) (append_assoc zs x ys)

append-nil : (xs : List ArchivedRow) → xs ++ [] ≡ xs
append-nil [] = refl
append-nil (z ∷ zs) = ap (λ rest. z ∷ rest) (append-nil zs)

pub archive_batch-eq-done :
    (e : String) (at expected : ℕ) (batch : List FeedRow) (s : Tables) {t : Tables}
    → archive_batch e at expected batch s ≡ done tt t
    → (t ≡ record s { feed_archives = s.feed_archives ++ archived_of e at batch })
      × (numbers e (archived_rows (archived_of e at batch)) ≡ range expected (length batch))
unfolding archive_batch archived_of numbers archived_rows range
archive_batch-eq-done e at n [] s {t} h = (
  after_done h ∙ ap (λ rows. record s { feed_archives = rows }) (sym (append-nil s.feed_archives)),
  refl,
)
archive_batch-eq-done e at n (r ∷ rs) s {t} h =
    let (test, h1) = raise_if->>= _ _ _ _ h in
    let h2 = effect->>= _ _ _ (λ t. insert_archive-eq-done _ at s) h1 in
    let (p, q) = archive_batch-eq-done e at (n + 1) rs _ h2 in
    let number_eq : r.sequence ≡ n = ground (arith, test, eq_iff r.sequence n) in
    let step : n + 1 ≡ suc n = omega arith in
    (
      p ∙ ap (λ rows. record s { feed_archives = rows }) (append_assoc s.feed_archives _ _),
      rw (eq_refl e, number_eq) (ap (λ ns. n ∷ ns) (q ∙ ap (λ j. range j (length rs)) step)),
    )

advance_first-eq-done :
    (e : String) (b : PacketFeedBounds) (v : ℕ) (s : Tables) {t : Tables}
    → advance_first e b v s ≡ done tt t
    → (is_some (find_head e s.feed_heads) ≡ true)
      × (t ≡ record s { feed_heads = set_first e v s.feed_heads })
unfolding advance_first
advance_first-eq-done e b v s h =
    let (x, found, h1) = or_raise->>= _ _ _ _ (done->>= _ _ _ h) in
    (ap is_some found, after_done (raise_if->>= _ _ _ _ h1).1)

bounds_of-eq-done :
    (o : Option FeedHead) (s : Tables) {b : PacketFeedBounds} {t : Tables}
    → bounds_of o s ≡ done b t
    → (b.head ≡ head_of o) × (b.first_available ≡ first_or_one o) × (t ≡ s)
unfolding bounds_of head_of first_or_one
bounds_of-eq-done none s h = (cc, cc, cc)
bounds_of-eq-done (some x) s h = let (c, h1) = raise_if->>= _ _ _ _ h in (cc, cc, cc)

pub packet_feed_bounds-eq-done :
    (e : String) (s : Tables) {b : PacketFeedBounds} {t : Tables}
    → packet_feed_bounds e s ≡ done b t
    → (b.head ≡ last_of e s.feed_heads) × (b.first_available ≡ first_of e s.feed_heads) × (t ≡ s)
unfolding packet_feed_bounds last_of first_of
packet_feed_bounds-eq-done e s h = bounds_of-eq-done _ s (done->>= _ _ _ h)

unfoldable pub archived_through : String → ℕ → ℕ → ℕ → List FeedRow → Tables → Tables
archived_through e lo hi at batch s = record s {
  feed_archives = s.feed_archives ++ archived_of e at batch;
  feed_actions = keep_rows (λ r. not (in_range e lo hi r)) s.feed_actions;
  feed_heads = set_first e (hi + 1) s.feed_heads;
}

-- What the move has done, from the first available number on.
unfoldable pub IsMoved : String → ℕ → ℕ → ℕ → Tables → Tables → Type 0
IsMoved e through at lo s t =
    let batch = order_rows (keep_rows (in_range e lo through) s.feed_actions) in
    (lo ≤ through)
    × (length batch ≡ through - lo + 1)
    × (numbers e (archived_rows (archived_of e at batch)) ≡ range lo (length batch))
    × (is_some (find_head e s.feed_heads) ≡ true)
    × (t ≡ archived_through e lo through at batch s)

archive_range-IsMoved :
    (e : String) (through at : ℕ) (b : PacketFeedBounds) (s : Tables) {r : PacketFeedArchiveResult}
    {t : Tables}
    → archive_range e through at b s ≡ done r t
    → (through ≤ b.head) × IsMoved e through at b.first_available s t
unfolding archive_range archived_through IsMoved
archive_range-IsMoved e through at b s h =
    let (test, h1) = raise_if->>= _ _ _ _ h in
    let (same, h2) = raise_if->>= _ _ _ _ (done->>= _ _ _ h1) in
    let (e3, h3) = ran->>= _ _ _ (λ t p. (archive_batch-eq-done e at _ _ s p).0) h2 in
    let h4 = done->>= _ _ _ h3 in
    let (e5, h5) = ran->>= _ _ _ (λ t p. (advance_first-eq-done e b _ _ p).1) h4 in
    let lower : b.first_available ≤ through = ground (arith, test) in
    let upper : through ≤ b.head = ground (arith, test) in
    let counted = (eq_iff _ _).0 (not-false _ same) in
    (
      upper,
      (
        lower,
        counted,
        (archive_batch-eq-done e at _ _ s e3).1,
        (advance_first-eq-done e b _ _ e5).0,
        after_done h5,
      ),
    )

pub archive_packet_feed_prefix-IsMoved :
    (e : String) (through at : ℕ) (s : Tables) {r : PacketFeedArchiveResult} {t : Tables}
    → archive_packet_feed_prefix e through at s ≡ done r t
    → (through ≤ last_of e s.feed_heads) × IsMoved e through at (first_of e s.feed_heads) s t
unfolding archive_packet_feed_prefix
archive_packet_feed_prefix-IsMoved e through at s {r} {t} h =
    let (b, e1, h1) = read->>= _ s _ (λ a t p. (packet_feed_bounds-eq-done e s p).2) h in
    let (p, q, _) = packet_feed_bounds-eq-done e s e1 in
    let (i, j) = archive_range-IsMoved e through at b s h1 in
    (subst (λ x. through ≤ x) p i, subst (λ x. IsMoved e through at x s t) q j)
