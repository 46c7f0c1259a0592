-- ===== src/Store/Feed/Numbers.antt =====
-- The sequence numbers of an event in the tables of internal/infrastructure/sqlite/packet_issuance_store.go.
use chrono_desk.Prelude.{
  List, Option, String, [], ap, arith, if◌then◌else◌, none, refl, some, suc, zero, ℕ, ◌++◌, ◌+◌,
  ◌∷◌, ◌≡◌,
}
use chrono_desk.Store.Feed.{find_head, head_of}
use chrono_desk.Store.Tables.{ArchivedRow, FeedHead, FeedRow, Tables}
use chrono_desk.Prelude.Classes.{string_eq, nat_eq, ◌==◌}

unfoldable pub numbers : String → List FeedRow → List ℕ
numbers e [] = []
numbers e (r ∷ rs) = if r.event_id == e then r.sequence ∷ numbers e rs else numbers e rs

unfoldable pub archived_rows : List ArchivedRow → List FeedRow
archived_rows [] = []
archived_rows (a ∷ rest) = a.row ∷ archived_rows rest

-- So many numbers from the first one on.
unfoldable pub range : ℕ → ℕ → List ℕ
range first zero = []
range first (suc n) = first ∷ range (suc first) n

pub range-append : (first m n : ℕ) → range first m ++ range (first + m) n ≡ range first (m + n)
unfolding range
range-append first zero n = ground arith
range-append first (suc m) n =
    let e : first + suc m ≡ suc first + m = omega arith in
    let f : suc m + n ≡ suc (m + n) = omega arith in
    rw (e, f, range) (ap (λ zs. first ∷ zs) (range-append (suc first) m n))

pub numbers-append :
    (e : String) (xs ys : List FeedRow) → numbers e (xs ++ ys) ≡ numbers e xs ++ numbers e ys
unfolding numbers
numbers-append e [] ys = refl
numbers-append e (x ∷ xs) ys = ground (arith, numbers-append e xs ys)

pub archived_rows-append :
    (xs ys : List ArchivedRow) → archived_rows (xs ++ ys) ≡ archived_rows xs ++ archived_rows ys
unfolding archived_rows
archived_rows-append [] ys = refl
archived_rows-append (x ∷ xs) ys = ap (λ zs. x.row ∷ zs) (archived_rows-append xs ys)

unfoldable pub first_or_one : Option FeedHead → ℕ
first_or_one none = 1
first_or_one (some h) = h.first_available_sequence

unfoldable pub last_of : String → List FeedHead → ℕ
unfolding head_of find_head
last_of e hs = head_of (find_head e hs)

unfoldable pub first_of : String → List FeedHead → ℕ
unfolding first_or_one find_head
first_of e hs = first_or_one (find_head e hs)

-- The numbers 1 to k are archived and the n numbers after them are live: no gap, and none twice.
unfoldable pub IsNumbered : String → List FeedHead → List FeedRow → List ArchivedRow → Type 0
IsNumbered e heads actions archives =
    (k : ℕ) × (n : ℕ) × (first_of e heads ≡ suc k)
    × (last_of e heads ≡ k + n)
    × (numbers e actions ≡ range (suc k) n)
    × (numbers e (archived_rows archives) ≡ range 1 k)

unfoldable pub IsContiguous : String → Tables → Type 0
unfolding IsNumbered
IsContiguous e s = IsNumbered e s.feed_heads s.feed_actions s.feed_archives
