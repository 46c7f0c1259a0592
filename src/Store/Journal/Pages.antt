-- ===== src/Store/Journal/Pages.antt =====
-- Pages of the feed of the desk, read by `ListPacketFeedRows` of
-- internal/infrastructure/sqlite/packet_issuance_store.go.
use chrono_desk.Store.Db.{raise_if, done, resume}
use chrono_desk.Store.Journal.{Journaled, Journaled-IsContiguous}
use chrono_desk.Prelude.{
  Bool, Bool-cases, List, String, [], ap, arith, if◌then◌else◌, inl, inr, leb, leb→le, ltb, refl,
  suc, sym, zero, ℕ, ◌&&◌, ◌++◌, ◌+◌, ◌-◌, ◌<◌, ◌∙◌, ◌∷◌, ◌≡◌, ◌≤◌, true, within,
}
use chrono_desk.Store.Feed.Numbers.{
  numbers, range, range-append, IsContiguous, IsNumbered, first_of, last_of,
}
use chrono_desk.Store.Feed.{insert_row, keep_rows, order_rows, take_rows, list_packet_feed_rows}
use chrono_desk.Store.Tables.{FeedRow, Tables}
use chrono_desk.Prelude.Classes.{string_eq, nat_eq, ◌==◌}

unfoldable pub sequences : List FeedRow → List ℕ
sequences [] = []
sequences (r ∷ rs) = r.sequence ∷ sequences rs

after_cursor : String → ℕ → FeedRow → Bool
after_cursor e after r = r.event_id == e && ltb after r.sequence

above : ℕ → List ℕ → List ℕ
above after [] = []
above after (n ∷ ns) = if ltb after n then n ∷ above after ns else above after ns

sequences-keep :
    (e : String) (after : ℕ) (rs : List FeedRow)
    → sequences (keep_rows (after_cursor e after) rs) ≡ above after (numbers e rs)
unfolding sequences keep_rows after_cursor above numbers
sequences-keep e after [] = refl
sequences-keep e after (r ∷ rs) = ground (arith, sequences-keep e after rs)

above-low : (after a n : ℕ) → a + n ≤ after + 1 → above after (range a n) ≡ []
unfolding above range
above-low after a zero p = refl
above-low after a (suc n) p = ground (arith, above-low after (suc a) n)

above-high : (after a n : ℕ) → after < a → above after (range a n) ≡ range a n
unfolding above range
above-high after a zero p = refl
above-high after a (suc n) p = ground (arith, above-high after (suc a) n)

above-append :
    (after : ℕ) (xs ys : List ℕ) → above after (xs ++ ys) ≡ above after xs ++ above after ys
unfolding above
above-append after [] ys = refl
above-append after (x ∷ xs) ys = ground (arith, above-append after xs ys)

above-range :
    (after k n : ℕ) → k ≤ after → above after (range (suc k) n) ≡ range (suc after) (k + n - after)
unfolding range
above-range after k n p = elim (Bool-cases (leb (k + n) after)) [
  | inl q ↦
      let small : k + n ≤ after = leb→le _ _ q in
      let zero_eq : k + n - after ≡ 0 = omega (arith, small) in
      above-low after (suc k) n (omega (arith, small)) ∙ sym (ap (range (suc after)) zero_eq)
  | inr q ↦
      let large : after < k + n = ground (arith, q) in
      let m = after - k in
      let rest = k + n - after in
      let total : n ≡ m + rest = omega (arith, large, p) in
      let place : suc k + m ≡ suc after = omega (arith, p) in
      ap (λ x. above after (range (suc k) x)) total
      ∙ ap (above after) (sym (range-append (suc k) m rest))
      ∙ above-append after (range (suc k) m) (range (suc k + m) rest)
      ∙ ap (λ xs. xs ++ above after (range (suc k + m) rest))
          (above-low after (suc k) m (omega (arith, p)))
      ∙ above-high after (suc k + m) rest (omega (arith, p))
      ∙ ap (λ x. range x rest) place
]

-- Rows whose numbers rise are in order already.
insert_row-first :
    (r : FeedRow) (rs : List FeedRow) (n m : ℕ)
    → sequences rs ≡ range n m
    → r.sequence ≤ n
    → insert_row r rs ≡ r ∷ rs
unfolding insert_row sequences range
insert_row-first r [] n m h p = refl
insert_row-first r (x ∷ xs) n zero h p = cc
insert_row-first r (x ∷ xs) n (suc m) h p = ground (arith, h, p)

order_rows-range : (rs : List FeedRow) (n m : ℕ) → sequences rs ≡ range n m → order_rows rs ≡ rs
unfolding order_rows sequences range
order_rows-range [] n m h = refl
order_rows-range (r ∷ rs) n zero h = cc
order_rows-range (r ∷ rs) n (suc m) h =
    let tail : sequences rs ≡ range (suc n) m = cc in
    let head : r.sequence ≡ n = cc in
    ap (insert_row r) (order_rows-range rs (suc n) m tail)
    ∙ insert_row-first r rs (suc n) m tail (omega (arith, head))

sequences-take :
    (limit : ℕ) (rs : List FeedRow) (n m : ℕ)
    → sequences rs ≡ range n m
    → sequences (take_rows limit rs) ≡ range n (if leb limit m then limit else m)
unfolding sequences take_rows range
sequences-take zero rs n m h = ground arith
sequences-take (suc l) [] n zero h = ground arith
sequences-take (suc l) [] n (suc m) h = cc
sequences-take (suc l) (r ∷ rs) n zero h = cc
sequences-take (suc l) (r ∷ rs) n (suc m) h =
    let tail : sequences rs ≡ range (suc n) m = cc in
    let head : r.sequence ≡ n = cc in
    let rest = sequences-take l rs (suc n) m tail in ground (arith, head, rest)

-- `limit` numbers, or as many as there are.
abbrev pub at_most : ℕ → ℕ → ℕ
at_most limit n = if leb limit n then limit else n

-- After any such transactions, a page of 1 to 100 actions after a cursor that is not before the archived
-- ones is read without an error, and holds the numbers after the cursor without a gap: as many as the
-- limit, or all up to the last one of the head.
pub list_packet_feed_rows-Journaled :
    (s : Tables) (e : String) (after limit : ℕ)
    → Journaled s
    → first_of e s.feed_heads ≤ after + 1
    → within 1 100 limit ≡ true
    → (rows : List FeedRow) × (list_packet_feed_rows e after limit s ≡ done rows s)
      × (sequences rows ≡ range (after + 1) (at_most limit (last_of e s.feed_heads - after)))
unfolding list_packet_feed_rows IsContiguous IsNumbered resume raise_if after_cursor
list_packet_feed_rows-Journaled s e after limit r available w =
    let (k, n, pf, pl, live, old) = Journaled-IsContiguous s r e in
    let kept = keep_rows (after_cursor e after) s.feed_actions in
    let low : k ≤ after = omega (arith, pf, available) in
    let step : suc after ≡ after + 1 = omega arith in
    let numbered : sequences kept ≡ range (suc after) (k + n - after) =
      sequences-keep e after s.feed_actions ∙ ap (above after) live ∙ above-range after k n low in
    (
      take_rows limit (order_rows kept),
      rw w refl,
      ap (λ rs. sequences (take_rows limit rs)) (order_rows-range kept _ _ numbered)
          ∙ sequences-take limit kept _ _ numbered
          ∙ ap (λ x. range x (at_most limit (k + n - after))) step
          ∙ ap (λ x. range (after + 1) (at_most limit (x - after))) (sym pl),
    )
