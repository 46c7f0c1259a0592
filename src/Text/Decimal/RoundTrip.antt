-- ===== src/Text/Decimal/RoundTrip.antt =====
-- Proofs on `validAssignedBib` (internal/packetissuance/transitions.go).
use chrono_desk.Text.Chars.{codes, is_digit}
use chrono_desk.Prelude.{
  ℕ, zero, suc, ◌/◌, ◌<◌, ◌≡◌, List, arith, ltb, Bool-cases, inl, inr, ◌∙◌, true, ◌%◌, ◌*◌, ◌+◌,
  ◌-◌, ◌∷◌, Bool, String, [], false, lt→ltb, refl, some, ◌^◌, ◌↔◌, ◌≤◌, Option, none,
}
use chrono_desk.Prelude.Classes.{nat_eq, list_eq, eq_iff, eq_refl}
use chrono_desk.Text.Decimal.{
  digits_value, decimal_from, decimal, pos, valid_assigned_bib, parse_codes, positive_within,
  unsigned_value, format_int, negative_within, negsuc, parse_int, positive_canonical, ℤ,
}

digits_value-push :
    (n : ℕ) (acc : List ℕ) → digits_value (n / 10) ((b'0' + n % 10) ∷ acc) ≡ digits_value n acc
unfolding digits_value
digits_value-push n acc =
    let digit : b'0' + n % 10 - b'0' ≡ n % 10 = omega arith in
    let value : n / 10 * 10 + n % 10 ≡ n = omega arith in rw (digit, value) (ground arith)

digits_value-single :
    (n : ℕ) (acc : List ℕ)
    → ltb n 10 ≡ true
    → digits_value 0 ((b'0' + n) ∷ acc) ≡ digits_value n acc
unfolding digits_value
digits_value-single n acc e =
    let value : 0 * 10 + (b'0' + n - b'0') ≡ n = omega arith in rw value (ground arith)

-- `suc n` rounds write every digit.
digits_value-decimal_from :
    (fuel n : ℕ) (acc : List ℕ)
    → n < fuel
    → digits_value 0 (decimal_from fuel n acc) ≡ digits_value n acc
unfolding decimal_from
digits_value-decimal_from zero n acc h = elim h [ ]
digits_value-decimal_from (suc fuel) n acc h = elim (Bool-cases (ltb n 10)) [
  | inl e ↦ rw (e, decimal_from) (digits_value-single n acc e)
  | inr e ↦
      rw (e, decimal_from)
        (digits_value-decimal_from fuel (n / 10) _ (ground arith) ∙ digits_value-push n acc)
]

abbrev starts_with_digit : List ℕ → Bool
starts_with_digit [] = false
starts_with_digit (c ∷ cs) = is_digit c

decimal_from-starts_with_digit :
    (fuel n : ℕ) (acc : List ℕ) → n < fuel → starts_with_digit (decimal_from fuel n acc) ≡ true
unfolding decimal_from
decimal_from-starts_with_digit zero n acc h = elim h [ ]
decimal_from-starts_with_digit (suc fuel) n acc h = elim (Bool-cases (ltb n 10)) [
  | inl e ↦ rw (e, decimal_from) (ground arith)
  | inr e ↦ rw (e, decimal_from) (decimal_from-starts_with_digit fuel (n / 10) _ (ground arith))
]

-- A run that starts with a digit has no sign.
parse_codes-unsigned :
    (cutoff : ℕ) (cs : List ℕ)
    → starts_with_digit cs ≡ true
    → parse_codes cutoff cs ≡ positive_within cutoff (digits_value 0 cs)
unfolding parse_codes unsigned_value
parse_codes-unsigned cutoff [] h = cc
parse_codes-unsigned cutoff (c ∷ cs) h = ground arith

parse_codes-decimal : (cutoff n : ℕ) → n < cutoff → parse_codes cutoff (decimal n) ≡ some (pos n)
unfolding decimal positive_within digits_value
parse_codes-decimal cutoff n h =
    parse_codes-unsigned cutoff _ (decimal_from-starts_with_digit (suc n) n [] (omega arith))
    ∙ rw (digits_value-decimal_from (suc n) n [] (omega arith))
        (rw (lt→ltb _ _ h, digits_value) refl)

positive_within-lt :
    (cutoff n : ℕ) (o : Option ℕ) → positive_within cutoff o ≡ some (pos n) → n < cutoff
unfolding positive_within
positive_within-lt cutoff n none h = cc
positive_within-lt cutoff n (some m) h = ground arith

negative_within-ne-pos :
    (cutoff n : ℕ) (o : Option ℕ) → negative_within cutoff o ≡ some (pos n) → n ≡ 0
unfolding negative_within
negative_within-ne-pos cutoff n none h = cc
negative_within-ne-pos cutoff n (some zero) h = ground arith
negative_within-ne-pos cutoff n (some (suc m)) h = ground arith

parse_codes-lt :
    (cutoff n : ℕ) (cs : List ℕ) → 0 < n → parse_codes cutoff cs ≡ some (pos n) → n < cutoff
unfolding parse_codes
parse_codes-lt cutoff n [] low h = cc
parse_codes-lt cutoff n (c ∷ cs) low h = ground (
  arith,
  positive_within-lt cutoff n (unsigned_value cs),
  positive_within-lt cutoff n (unsigned_value (c ∷ cs)),
  negative_within-ne-pos cutoff n (unsigned_value cs),
)

abbrev IsCanonical : List ℕ → Type 0
IsCanonical cs = (n : ℕ) × (1 ≤ n) × (n < 2 ^ 31) × (cs ≡ decimal n)

positive_canonical-IsCanonical :
    (o : Option ℤ) (cs : List ℕ)
    → ((n : ℕ) → 0 < n → o ≡ some (pos n) → n < 2 ^ 31)
    → positive_canonical o cs ≡ true
    → IsCanonical cs
unfolding positive_canonical format_int
positive_canonical-IsCanonical none cs bound h = cc
positive_canonical-IsCanonical (some (negsuc n)) cs bound h = cc
positive_canonical-IsCanonical (some (pos n)) cs bound h =
    let low : 0 < n = ground arith in
    (n, low, bound n low refl, ground (arith, eq_iff (decimal n) cs))

-- A bib is accepted exactly when it is the decimal form, without sign or leading zero, of a number
-- from 1 to 2 ^ 31 - 1.
pub valid_assigned_bib-canonical :
    (bib : String)
    → (valid_assigned_bib bib ≡ true) ↔ ((n : ℕ) × (1 ≤ n) × (n < 2 ^ 31) × (codes bib ≡ decimal n))
unfolding valid_assigned_bib
valid_assigned_bib-canonical bib = (
  λ h.
      positive_canonical-IsCanonical (parse_int 32 bib) (codes bib)
        (λ n low e. parse_codes-lt (2 ^ 31) n (codes bib) low e) h,
  λ (n, low, high, e).
      rw (e, parse_codes-decimal (2 ^ 31) n high)
        (ground (arith, eq_refl (decimal n), lt→ltb 0 n low)),
)
