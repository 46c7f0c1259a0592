-- ===== src/Store/Feed/Preserved.antt =====
-- The actions of the feed and of its archive, counted by a test, under `ArchivePacketFeedPrefix` of
-- internal/infrastructure/sqlite/packet_issuance_store.go.
use chrono_desk.Prelude.{
  Bool, List, String, [], all, and_parts, and_true, ap, arith, if◌then◌else◌, not, refl, suc, sym,
  true, ℕ, ◌++◌, ◌+◌, ◌∙◌, ◌∷◌, ◌≡◌,
}
use chrono_desk.Store.Feed.Archive.{
  IsMoved, archive_packet_feed_prefix-IsMoved, archived_of, archived_through,
}
use chrono_desk.Store.Feed.Numbers.{archived_rows, archived_rows-append, first_of}
use chrono_desk.Store.Feed.{
  PacketFeedArchiveResult, archive_packet_feed_prefix, in_range, insert_row, keep_rows, order_rows,
}
use chrono_desk.Store.Tables.{FeedRow, Tables}
use chrono_desk.Store.Db.{done}
use chrono_desk.Prelude.Classes.{string_eq, nat_eq, ◌==◌, eq_iff}

unfoldable pub count : (FeedRow → Bool) → List FeedRow → ℕ
count p [] = 0
count p (r ∷ rs) = if p r then suc (count p rs) else count p rs

-- So many actions with the property are live or archived.
unfoldable pub recorded : (FeedRow → Bool) → Tables → ℕ
unfolding count archived_rows
recorded p s = count p s.feed_actions + count p (archived_rows s.feed_archives)

pub count-append :
    (p : FeedRow → Bool) (xs ys : List FeedRow) → count p (xs ++ ys) ≡ count p xs + count p ys
unfolding count
count-append p [] ys = omega arith
count-append p (x ∷ xs) ys = ground (arith, count-append p xs ys)

count-insert_row :
    (p : FeedRow → Bool) (r : FeedRow) (rs : List FeedRow)
    → count p (insert_row r rs) ≡ count p (r ∷ rs)
unfolding count insert_row
count-insert_row p r [] = refl
count-insert_row p r (x ∷ xs) = ground (arith, count-insert_row p r xs)

count-order_rows : (p : FeedRow → Bool) (rs : List FeedRow) → count p (order_rows rs) ≡ count p rs
unfolding count order_rows
count-order_rows p [] = refl
count-order_rows p (r ∷ rs) =
    ground (arith, count-insert_row p r (order_rows rs), count-order_rows p rs)

count-split :
    (p q : FeedRow → Bool) (rs : List FeedRow)
    → count p (keep_rows q rs) + count p (keep_rows (λ r. not (q r)) rs) ≡ count p rs
unfolding count keep_rows
count-split p q [] = refl
count-split p q (r ∷ rs) = ground (arith, count-split p q rs)

of_event : String → FeedRow → Bool
of_event e r = r.event_id == e

all-insert_row :
    (e : String) (r : FeedRow) (rs : List FeedRow)
    → all (of_event e) (r ∷ rs) ≡ true
    → all (of_event e) (insert_row r rs) ≡ true
unfolding insert_row
all-insert_row e r [] h = h
all-insert_row e r (x ∷ xs) h = ground (arith, h, all-insert_row e r xs)

all-order_rows :
    (e : String) (rs : List FeedRow)
    → all (of_event e) rs ≡ true
    → all (of_event e) (order_rows rs) ≡ true
unfolding order_rows
all-order_rows e [] h = refl
all-order_rows e (r ∷ rs) h =
    let (own, rest) = and_parts _ _ h in
    all-insert_row e r (order_rows rs) (and_true _ _ own (all-order_rows e rs rest))

all-keep_rows :
    (e : String) (lo hi : ℕ) (rs : List FeedRow)
    → all (of_event e) (keep_rows (in_range e lo hi) rs) ≡ true
unfolding keep_rows in_range of_event
all-keep_rows e lo hi [] = refl
all-keep_rows e lo hi (r ∷ rs) = ground (arith, all-keep_rows e lo hi rs)

own_row : (e : String) (r : FeedRow) → of_event e r ≡ true → record r { event_id = e } ≡ r
unfolding of_event
own_row e r h = let p = (eq_iff r.event_id e).0 h in ap (λ x. record r { event_id = x }) (sym p)

count-archived_of :
    (p : FeedRow → Bool) (e : String) (at : ℕ) (rs : List FeedRow)
    → all (of_event e) rs ≡ true
    → count p (archived_rows (archived_of e at rs)) ≡ count p rs
unfolding count archived_rows archived_of
count-archived_of p e at [] h = refl
count-archived_of p e at (r ∷ rs) h =
    let (own, rest) = and_parts _ _ h in
    let ih = count-archived_of p e at rs rest in
    ap
      (λ x.
        if p x
        then suc (count p (archived_rows (archived_of e at rs)))
        else count p (archived_rows (archived_of e at rs)))
      (own_row e r own)
    ∙ ap (λ n. if p r then suc n else n) ih

-- An archiving that returns neither loses nor repeats an action: for every test, as many actions in the
-- feed and its archive together satisfy it afterwards as before.
pub recorded-archive_packet_feed_prefix :
    (p : FeedRow → Bool) (e : String) (through at : ℕ) (s : Tables) {r : PacketFeedArchiveResult}
    {t : Tables}
    → archive_packet_feed_prefix e through at s ≡ done r t
    → recorded p t ≡ recorded p s
unfolding recorded IsMoved archived_through
recorded-archive_packet_feed_prefix p e through at s {t = t} h =
    let lo = first_of e s.feed_heads in
    let (_, (_, _, _, _, q)) = archive_packet_feed_prefix-IsMoved e through at s h in
    let kept = keep_rows (in_range e lo through) s.feed_actions in
    let batch = order_rows kept in
    let split = count-split p (in_range e lo through) s.feed_actions in
    let moved : count p (archived_rows (archived_of e at batch)) ≡ count p kept =
      count-archived_of p e at batch
        (all-order_rows e kept (all-keep_rows e lo through s.feed_actions))
      ∙ count-order_rows p kept in
    let archive : count p (archived_rows (s.feed_archives ++ archived_of e at batch))
        ≡ count p (archived_rows s.feed_archives)
          + count p (archived_rows (archived_of e at batch)) =
      ap (count p) (archived_rows-append s.feed_archives (archived_of e at batch))
      ∙ count-append p (archived_rows s.feed_archives) (archived_rows (archived_of e at batch)) in
    ap (recorded p) q ∙ omega (arith, split, moved, archive)
