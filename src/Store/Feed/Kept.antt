-- ===== src/Store/Feed/Kept.antt =====
-- The sequence numbers and the actions under `ArchivePacketFeedPrefix` of
-- internal/infrastructure/sqlite/packet_issuance_store.go.
use chrono_desk.Store.Feed.Floor.{
  first_of-set_first, first_of-set_first-other, last_of-set_first, numbers-remove,
  numbers-remove-other, outside, outside-above, outside-append, outside-below,
}
use chrono_desk.Prelude.{
  Bool-cases, List, String, [], ap, arith, false, inl, inr, refl, subst, suc, sym, ℕ, ◌++◌, ◌+◌,
  ◌-◌, ◌∙◌, ◌∷◌, ◌≡◌, ◌≤◌,
}
use chrono_desk.Store.Feed.Archive.{
  IsMoved, archive_packet_feed_prefix-IsMoved, archived_of, archived_through,
}
use chrono_desk.Store.Feed.Numbers.{
  IsContiguous, IsNumbered, archived_rows, archived_rows-append, first_of, last_of, numbers,
  numbers-append, range, range-append,
}
use chrono_desk.Store.Feed.{
  PacketFeedArchiveResult, archive_packet_feed_prefix, in_range, keep_rows, order_rows,
}
use chrono_desk.Store.Tables.{ArchivedRow, FeedRow, Tables}
use chrono_desk.Store.Db.{done}
use chrono_desk.Prelude.Classes.{string_eq, nat_eq, ◌==◌, eq_iff}

-- Of m + n numbers the first m are outside of the rest.
outside-range :
    (first m n : ℕ)
    → outside (suc first) (first + m) (range (suc first) (m + n)) ≡ range (suc (first + m)) n
outside-range first m n =
    let split = range-append (suc first) m n in
    let e : suc first + m ≡ suc (first + m) = omega arith in
    let below : outside (suc first) (first + m) (range (suc first) m) ≡ [] =
      outside-below (suc first) (first + m) (suc first) m (omega arith) (omega arith) in
    let above : outside (suc first) (first + m) (range (suc first + m) n)
        ≡ range (suc first + m) n =
      outside-above (suc first) (first + m) (suc first + m) n (omega arith) in
    sym (ap (outside (suc first) (first + m)) split)
    ∙ outside-append (suc first) (first + m) (range (suc first) m) (range (suc first + m) n)
    ∙ ap (λ xs. xs ++ outside (suc first) (first + m) (range (suc first + m) n)) below
    ∙ above
    ∙ ap (λ x. range x n) e

numbers-archived :
    (e k : String) (at : ℕ) (rs : List FeedRow)
    → (k == e) ≡ false
    → numbers e (archived_rows (archived_of k at rs)) ≡ []
unfolding numbers archived_rows archived_of
numbers-archived e k at [] q = refl
numbers-archived e k at (r ∷ rs) q = rw q (numbers-archived e k at rs q)

append-nil : (xs : List ℕ) → xs ++ [] ≡ xs
append-nil [] = refl
append-nil (z ∷ zs) = ap (λ rest. z ∷ rest) (append-nil zs)

numbers-archives :
    (e : String) (xs ys : List ArchivedRow)
    → numbers e (archived_rows (xs ++ ys))
      ≡ numbers e (archived_rows xs) ++ numbers e (archived_rows ys)
numbers-archives e xs ys = ap (numbers e) (archived_rows-append xs ys) ∙ numbers-append e _ _

own_event :
    (e : String) (through at lo : ℕ) (s t : Tables)
    → lo ≡ first_of e s.feed_heads
    → through ≤ last_of e s.feed_heads
    → IsMoved e through at lo s t
    → IsContiguous e s
    → IsContiguous e t
unfolding IsContiguous IsNumbered IsMoved archived_through
own_event e through at lo s t pl upper (lower, counted, moved, found, p) (k, n, pf, pn, live, old) =
    let first : lo ≡ suc k = pl ∙ pf in
    let batch = order_rows (keep_rows (in_range e lo through) s.feed_actions) in
    let m = through - k in
    let rest = k + n - through in
    let total : m + rest ≡ n = omega (arith, pn, upper, lower, first) in
    let reached : k + m ≡ through = omega (arith, lower, first) in
    let batch_size : through - lo + 1 ≡ m = omega (arith, lower, first) in
    subst (IsContiguous e) (sym p) (
      k + m,
      rest,
      first_of-set_first e (through + 1) s.feed_heads found ∙ omega (arith, reached),
      last_of-set_first e e (through + 1) s.feed_heads ∙ pn ∙ omega (arith, reached, total),
      numbers-remove e lo through s.feed_actions
          ∙ ap (outside lo through) (live ∙ ap (range (suc k)) (sym total))
          ∙ ap (λ x. outside x through (range (suc k) (m + rest))) first
          ∙ ap (λ x. outside (suc k) x (range (suc k) (m + rest))) (sym reached)
          ∙ outside-range k m rest,
      numbers-archives e s.feed_archives _
          ∙ ap (λ xs. xs ++ numbers e (archived_rows (archived_of e at batch))) old
          ∙ ap (λ xs. range 1 k ++ xs)
              (moved
                ∙ ap (range lo) (counted ∙ batch_size)
                ∙ ap (λ x. range x m) (first ∙ omega arith))
          ∙ range-append 1 k m,
    )

other_event :
    (e k : String) (through at lo : ℕ) (s t : Tables)
    → (k == e) ≡ false
    → IsMoved k through at lo s t
    → IsContiguous e s
    → IsContiguous e t
unfolding IsContiguous IsNumbered IsMoved archived_through
other_event e k through at lo s t q (_, _, _, _, p) (j, n, pf, pn, live, old) =
    subst (IsContiguous e) (sym p) (
      j,
      n,
      first_of-set_first-other e k _ s.feed_heads q ∙ pf,
      last_of-set_first e k _ s.feed_heads ∙ pn,
      numbers-remove-other e k lo through s.feed_actions q ∙ live,
      numbers-archives e s.feed_archives _
          ∙ ap (λ xs. numbers e (archived_rows s.feed_archives) ++ xs) (numbers-archived e k at _ q)
          ∙ append-nil _
          ∙ old,
    )

pub archive_packet_feed_prefix-IsContiguous :
    (e k : String) (through at : ℕ) (s : Tables) {r : PacketFeedArchiveResult} {t : Tables}
    → archive_packet_feed_prefix k through at s ≡ done r t
    → IsContiguous e s
    → IsContiguous e t
archive_packet_feed_prefix-IsContiguous e k through at s {t = t} h c =
    let (upper, moved) = archive_packet_feed_prefix-IsMoved k through at s h in
    elim (Bool-cases (k == e)) [
      | inl q ↦
          subst (λ x. IsContiguous x t) ((eq_iff k e).0 q)
            (own_event k through at _ s t refl upper moved
              (subst (λ x. IsContiguous x s) (sym ((eq_iff k e).0 q)) c))
      | inr q ↦ other_event e k through at _ s t q moved c
    ]
