-- ===== src/Text/Chars.antt =====
-- Character classes and the anchored patterns of internal/packetissuance/validation.go, with its
-- `validText` and `validReason`.
use Prim.Native.Char.{code}
use Prim.Native.String.{len}
use chrono_desk.Prelude.{
  ℕ, zero, suc, String, Bool, true, false, not, ◌&&◌, ◌||◌, List, [], ◌∷◌, length, all, any, leb,
  within, if◌then◌else◌,
}
use chrono_desk.Prelude.Classes.{◌==◌, nat_eq}

-- The code points of a text.
abbrev pub codes : String → List ℕ
codes String.[] = []
codes (String.◌∷◌ c s) = code c ∷ codes s

abbrev pub is_digit : ℕ → Bool
is_digit c = within b'0' b'9' c

abbrev pub is_lower : ℕ → Bool
is_lower c = within b'a' b'z' c

is_identifier_char : ℕ → Bool
is_identifier_char c =
    within b'A' b'Z' c
    || is_lower c
    || is_digit c
    || c == b':'
    || c == b'.'
    || c == b'_'
    || c == b'-'

-- ^[A-Za-z0-9:._-]{1,128}$
unfoldable pub identifier_pattern : String → Bool
unfolding is_identifier_char
identifier_pattern s = within 1 128 (length (codes s)) && all is_identifier_char (codes s)

is_source_code_char : ℕ → Bool
is_source_code_char c = is_lower c || is_digit c || c == b'_' || c == b'.' || c == b'-'

source_code_codes : List ℕ → Bool
unfolding is_source_code_char
source_code_codes [] = false
source_code_codes (c ∷ cs) = is_lower c && leb (length cs) 63 && all is_source_code_char cs

-- ^[a-z][a-z0-9_.-]{0,63}$
unfoldable pub source_code_pattern : String → Bool
unfolding source_code_codes
source_code_pattern s = source_code_codes (codes s)

registration_id_codes : List ℕ → Bool
registration_id_codes [] = false
registration_id_codes (c ∷ cs) = within b'1' b'9' c && length cs == 14 && all is_digit cs

-- ^[1-9][0-9]{14}$
unfoldable pub registration_id_pattern : String → Bool
unfolding registration_id_codes
registration_id_pattern s = registration_id_codes (codes s)

cursor_codes : List ℕ → Bool
cursor_codes [] = false
cursor_codes (c ∷ cs) =
    (c == b'0' && length cs == 0) || (within b'1' b'9' c && leb (length cs) 19 && all is_digit cs)

-- ^(0|[1-9][0-9]{0,19})$
unfoldable pub canonical_cursor_pattern : String → Bool
unfolding cursor_codes
canonical_cursor_pattern s = cursor_codes (codes s)

-- Under (?i) the classes and literals match either case.
is_hex : ℕ → Bool
is_hex c = is_digit c || within b'a' b'f' c || within b'A' b'F' c

is_variant : ℕ → Bool
is_variant c = c == b'8' || c == b'9' || c == b'a' || c == b'b' || c == b'A' || c == b'B'

-- `n` characters of a class, then the rest.
run_of : (ℕ → Bool) → ℕ → (List ℕ → Bool) → List ℕ → Bool
run_of p zero rest cs = rest cs
run_of p (suc n) rest [] = false
run_of p (suc n) rest (c ∷ cs) = p c && run_of p n rest cs

at_end : List ℕ → Bool
at_end [] = true
at_end (c ∷ cs) = false

uuid_codes : List ℕ → Bool
unfolding is_hex is_variant run_of at_end
uuid_codes = run_of is_hex 8 (
    run_of dash 1 (
      run_of is_hex 4 (
        run_of dash 1 (
          run_of (λ c. c == b'4') 1
            (run_of is_hex 3 (
              run_of dash 1 (
                run_of is_variant 1
                  (run_of is_hex 3 (run_of dash 1 (run_of is_hex 12 at_end))))))))))
  where
    dash : ℕ → Bool
    dash c = c == b'-'

-- (?i)^[0-9a-f]{8}-[0-9a-f]{4}-4[0-9a-f]{3}-[89ab][0-9a-f]{3}-[0-9a-f]{12}$
unfoldable pub uuid_pattern : String → Bool
unfolding uuid_codes
uuid_pattern s = uuid_codes (codes s)

forbidden_char : ℕ → Bool
forbidden_char r =
    leb r 8 || within 14 31 r || r == 127 || within 0x202a 0x202e r || within 0x2066 0x2069 r

-- `len` counts the bytes of the UTF-8.
unfoldable pub valid_text : String → ℕ → Bool
unfolding forbidden_char
valid_text value limit =
    if not (leb (len value) limit) then false else all (λ r. not (forbidden_char r)) (codes value)

-- `unicode.IsSpace`
unfoldable pub is_space : ℕ → Bool
is_space r =
    within 9 13 r
    || r == 0x20
    || r == 0x85
    || r == 0xa0
    || r == 0x1680
    || within 0x2000 0x200a r
    || r == 0x2028
    || r == 0x2029
    || r == 0x202f
    || r == 0x205f
    || r == 0x3000

unfoldable pub valid_reason : String → Bool
unfolding valid_text is_space
valid_reason value =
    if not (valid_text value 500) then false else any (λ r. not (is_space r)) (codes value)
