-- ===== src/Text/Decimal.antt =====
-- `strconv.ParseInt(s, 10, bits)` and `strconv.FormatInt(n, 10)`, and the canonical numbers that
-- the program accepts by comparing the two.
pub mod RoundTrip
use chrono_desk.Prelude.{
  ℕ, zero, suc, ◌+◌, ◌-◌, ◌*◌, ◌/◌, ◌%◌, ◌^◌, String, Bool, true, false, ◌&&◌, Option, none, some,
  List, [], ◌∷◌, ltb, if◌then◌else◌,
}
use chrono_desk.Prelude.Classes.{◌==◌, nat_eq, list_eq}
use chrono_desk.Text.Chars.{codes, is_digit}

-- `negsuc n` is -(n + 1).
pub data ℤ : Type 0 where
  pos : ℕ → ℤ
  negsuc : ℕ → ℤ

-- The value of a run of digits behind `acc`; `none` where another character stands.
digits_value : ℕ → List ℕ → Option ℕ
digits_value acc [] = some acc
digits_value acc (c ∷ cs) =
    let rest = digits_value (acc * 10 + (c - b'0')) cs in if is_digit c then rest else none

unsigned_value : List ℕ → Option ℕ
unfolding digits_value
unsigned_value [] = none
unsigned_value (c ∷ cs) = digits_value 0 (c ∷ cs)

-- `cutoff` is 2 ^ (bits - 1).
positive_within : ℕ → Option ℕ → Option ℤ
positive_within cutoff none = none
positive_within cutoff (some n) = if ltb n cutoff then some (pos n) else none

negative_within : ℕ → Option ℕ → Option ℤ
negative_within cutoff none = none
negative_within cutoff (some zero) = some (pos 0)
negative_within cutoff (some (suc n)) = if ltb n cutoff then some (negsuc n) else none

parse_codes : ℕ → List ℕ → Option ℤ
unfolding unsigned_value positive_within negative_within
parse_codes cutoff [] = none
parse_codes cutoff (c ∷ cs) =
    if c == b'+'
    then positive_within cutoff (unsigned_value cs)
    else if c == b'-'
    then negative_within cutoff (unsigned_value cs)
    else positive_within cutoff (unsigned_value (c ∷ cs))

-- `none` where ParseInt returns an error.
unfoldable pub parse_int : ℕ → String → Option ℤ
unfolding parse_codes
parse_int bits s = parse_codes (2 ^ (bits - 1)) (codes s)

-- The digits of `n`, most significant first, before `acc`. `n + 1` rounds are enough.
decimal_from : ℕ → ℕ → List ℕ → List ℕ
decimal_from zero n acc = acc
decimal_from (suc fuel) n acc = elim (ltb n 10) [
  | true ↦ (b'0' + n) ∷ acc
  | false ↦ decimal_from fuel (n / 10) ((b'0' + n % 10) ∷ acc)
]

unfoldable pub decimal : ℕ → List ℕ
unfolding decimal_from
decimal n = decimal_from (suc n) n []

unfoldable pub format_int : ℤ → List ℕ
unfolding decimal
format_int (pos n) = decimal n
format_int (negsuc n) = b'-' ∷ decimal (suc n)

-- `number, err := ParseInt(s, 10, 32); err == nil && number > 0 && FormatInt(number, 10) == s`
positive_canonical : Option ℤ → List ℕ → Bool
positive_canonical none s = false
positive_canonical (some (negsuc n)) s = false
positive_canonical (some (pos n)) s = ltb 0 n && format_int (pos n) == s

unfoldable pub valid_assigned_bib : String → Bool
unfolding positive_canonical parse_int format_int
valid_assigned_bib bib = positive_canonical (parse_int 32 bib) (codes bib)
