-- ===== src/Store/Feed/Floor.antt =====
-- The first available number of an event, and the removal of a range of numbers, in
-- internal/infrastructure/sqlite/packet_issuance_store.go.
use chrono_desk.Prelude.{
  List, String, [], arith, false, if◌then◌else◌, is_some, not, refl, suc, true, within, zero, ℕ,
  ◌++◌, ◌+◌, ◌<◌, ◌∷◌, ◌≡◌, ◌≤◌,
}
use chrono_desk.Store.Feed.Numbers.{first_of, first_or_one, last_of, numbers, range}
use chrono_desk.Store.Feed.{find_head, head_of, in_range, keep_rows, set_first}
use chrono_desk.Store.Tables.{FeedHead, FeedRow}
use chrono_desk.Prelude.Classes.{string_eq, nat_eq, ◌==◌, eq_iff}

pub last_of-set_first :
    (e k : String) (v : ℕ) (hs : List FeedHead) → last_of e (set_first k v hs) ≡ last_of e hs
unfolding last_of set_first find_head head_of
last_of-set_first e k v [] = refl
last_of-set_first e k v (h ∷ hs) = ground (arith, last_of-set_first e k v hs)

pub first_of-set_first :
    (e : String) (v : ℕ) (hs : List FeedHead)
    → is_some (find_head e hs) ≡ true
    → first_of e (set_first e v hs) ≡ v
unfolding first_of set_first find_head first_or_one
first_of-set_first e v [] p = cc
first_of-set_first e v (h ∷ hs) p = ground (arith, first_of-set_first e v hs)

pub first_of-set_first-other :
    (e k : String) (v : ℕ) (hs : List FeedHead)
    → (k == e) ≡ false
    → first_of e (set_first k v hs) ≡ first_of e hs
unfolding first_of set_first find_head first_or_one
first_of-set_first-other e k v [] p = refl
first_of-set_first-other e k v (h ∷ hs) p =
    ground (
      arith,
      eq_iff h.event_id k,
      eq_iff h.event_id e,
      eq_iff k e,
      first_of-set_first-other e k v hs,
    )

unfoldable pub outside : ℕ → ℕ → List ℕ → List ℕ
outside lo hi [] = []
outside lo hi (n ∷ ns) = if within lo hi n then outside lo hi ns else n ∷ outside lo hi ns

pub outside-below : (lo hi a n : ℕ) → lo ≤ a → a + n ≤ hi + 1 → outside lo hi (range a n) ≡ []
unfolding outside range
outside-below lo hi a zero p q = refl
outside-below lo hi a (suc n) p q = ground (arith, outside-below lo hi (suc a) n)

pub outside-above : (lo hi a n : ℕ) → hi < a → outside lo hi (range a n) ≡ range a n
unfolding outside range
outside-above lo hi a zero p = refl
outside-above lo hi a (suc n) p = ground (arith, outside-above lo hi (suc a) n)

pub outside-append :
    (lo hi : ℕ) (xs ys : List ℕ) → outside lo hi (xs ++ ys) ≡ outside lo hi xs ++ outside lo hi ys
unfolding outside
outside-append lo hi [] ys = refl
outside-append lo hi (x ∷ xs) ys = ground (arith, outside-append lo hi xs ys)

pub numbers-remove :
    (e : String) (lo hi : ℕ) (rs : List FeedRow)
    → numbers e (keep_rows (λ r. not (in_range e lo hi r)) rs) ≡ outside lo hi (numbers e rs)
unfolding numbers keep_rows in_range outside
numbers-remove e lo hi [] = refl
numbers-remove e lo hi (r ∷ rs) = ground (arith, numbers-remove e lo hi rs)

pub numbers-remove-other :
    (e k : String) (lo hi : ℕ) (rs : List FeedRow)
    → (k == e) ≡ false
    → numbers e (keep_rows (λ r. not (in_range k lo hi r)) rs) ≡ numbers e rs
unfolding numbers keep_rows in_range
numbers-remove-other e k lo hi [] q = refl
numbers-remove-other e k lo hi (r ∷ rs) q = ground (
  arith,
  eq_iff r.event_id k,
  eq_iff r.event_id e,
  eq_iff k e,
  numbers-remove-other e k lo hi rs q,
)
