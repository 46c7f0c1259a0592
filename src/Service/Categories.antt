-- ===== src/Service/Categories.antt =====
-- The choice of a category: internal/service/age_categories.go, with `ListRaceCategories` of
-- internal/infrastructure/sqlite/race_categories_store.go. `AgeOnRaceDate` of the package timing-core is the parameter
-- `age_on`.
use chrono_desk.Prelude.{
  Bool, List, Option, String, [], false, if◌then◌else◌, ltb, none, not, some, suc, true, zero, ℕ,
  ◌&&◌, ◌||◌, ◌∷◌,
}
use chrono_desk.Store.Members.{get_event, get_race}
use chrono_desk.Store.Tables.{CategoryRow, EventRow, MemberRow, RaceRow, Tables}
use chrono_desk.Store.Db.{◌>>=◌, Db, message, or_raise, pure, query, branch}
use chrono_desk.Text.Decimal.{ℤ, pos, negsuc}
use chrono_desk.Text.Date.{Date, parse_date, parse_date_codes}
use chrono_desk.Text.Chars.{codes}
use Prim.Native.String.{len, compare}
use text.Mathlib.Text.{is_le}
use chrono_desk.Prelude.Classes.{string_eq, option_eq, ◌==◌}

-- `<` on integers.
unfoldable pub int_ltb : ℤ → ℤ → Bool
int_ltb (pos m) (pos n) = ltb m n
int_ltb (pos m) (negsuc n) = false
int_ltb (negsuc m) (pos n) = true
int_ltb (negsuc m) (negsuc n) = ltb n m

insert_category : CategoryRow → List CategoryRow → List CategoryRow
insert_category c [] = c ∷ []
insert_category c (x ∷ xs) =
    if is_le (compare c.id x.id) then c ∷ x ∷ xs else x ∷ insert_category c xs

-- `ORDER BY c.id`, and the sort after it.
unfoldable pub sort_categories : List CategoryRow → List CategoryRow
unfolding insert_category
sort_categories [] = []
sort_categories (c ∷ cs) = insert_category c (sort_categories cs)

unfoldable pub categories_of : String → List (String × CategoryRow) → List CategoryRow
categories_of race [] = []
categories_of race ((r, c) ∷ rest) =
    if r == race then c ∷ categories_of race rest else categories_of race rest

below : Option ℤ → ℤ → Bool
unfolding int_ltb
below none age = false
below (some min) age = int_ltb age min

above : Option ℤ → ℤ → Bool
unfolding int_ltb
above none age = false
above (some max) age = int_ltb max age

unfoldable pub category_fits : String → ℤ → CategoryRow → Bool
unfolding below above
category_fits gender age c =
    c.gender == some gender && not (below c.min age) && not (above c.max age)

-- The loop of `resolveCategoryID`.
unfoldable pub first_category : String → ℤ → List CategoryRow → Option String
unfolding category_fits
first_category gender age [] = none
first_category gender age (c ∷ cs) =
    if category_fits gender age c then some c.id else first_category gender age cs

first_ten : ℕ → List ℕ → List ℕ
first_ten zero cs = []
first_ten (suc n) [] = []
first_ten (suc n) (c ∷ cs) = c ∷ first_ten n cs

unfoldable pub parse_race_date : String → Option Date
unfolding first_ten parse_date_codes
parse_race_date value =
    if ltb (len value) 10 then none else parse_date_codes (first_ten 10 (codes value))

unfoldable pub resolve_category_id :
    (Date → Date → Bool → ℤ)
    → RaceRow
    → EventRow
    → List CategoryRow
    → String
    → String
    → Db Tables (Option String)
unfolding parse_date parse_race_date first_category sort_categories
resolve_category_id age_on race event categories gender dob = do
  birth ← or_raise (parse_date dob) (message "parse dob")
  date ← or_raise (parse_race_date race.date) (message "parse race date")
  pure (
      first_category gender (age_on birth date event.use_race_date_for_age)
        (sort_categories categories))

unfoldable pub resolve_for :
    (Date → Date → Bool → ℤ) → MemberRow → String → String → Db Tables (Option String)
unfolding get_race get_event categories_of resolve_category_id
resolve_for age_on m gender dob = do
  race ← get_race m.race_id
  event ← get_event m.event_id
  categories ← query (λ s. categories_of m.race_id s.race_categories)
  resolve_category_id age_on race event categories gender dob

-- A member without a gender or a date of birth has no category.
unfoldable pub with_profile :
    (Date → Date → Bool → ℤ) → MemberRow → Option String → Option String → Db Tables (Option String)
unfolding resolve_for
with_profile age_on m (some gender) (some dob) =
    branch (gender == "" || dob == "") (pure none) (resolve_for age_on m gender dob)
with_profile age_on m _ _ = pure none

unfoldable pub resolve_category_id_for_member :
    (Date → Date → Bool → ℤ) → MemberRow → Db Tables (Option String)
unfolding with_profile
resolve_category_id_for_member age_on m = with_profile age_on m m.gender m.dob
