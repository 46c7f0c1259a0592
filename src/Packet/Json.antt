-- ===== src/Packet/Json.antt =====
-- Decoded JSON (`any` with `json.Number`) and its accessors in
-- internal/packetissuance/validation.go. An object holds each key once. A key that is missing reads
-- as nil, which is what null decodes to.
use chrono_desk.Text.Chars.{valid_text}
use chrono_desk.Text.Decimal.{negsuc, parse_int, pos, ℤ}
use chrono_desk.Prelude.{
  Bool, List, Option, String, [], all, false, if◌then◌else◌, leb, length, ltb, none, not, some, suc,
  true, ℕ, ◌&&◌, ◌||◌, ◌∷◌,
}
use chrono_desk.Prelude.Classes.{string_eq, nat_eq, ◌==◌}

mutual
  pub data Value : Type 0 where
    null : Value
    boolean : Bool → Value
    string : String → Value
    number : String → Value
    array : Items → Value
    object : Fields → Value

  pub data Items : Type 0 where
    nil : Items
    cons : Value → Items → Items

  pub data Fields : Type 0 where
    end : Fields
    field : String → Value → Fields → Fields

-- `len(items)` and `len(obj)`
abbrev pub item_count : Items → ℕ
item_count nil = 0
item_count (cons v vs) = suc (item_count vs)

abbrev pub field_count : Fields → ℕ
field_count end = 0
field_count (field k v fs) = suc (field_count fs)

abbrev pub items_list : Items → List Value
items_list nil = []
items_list (cons v vs) = v ∷ items_list vs

-- `_, ok := obj[key]`
unfoldable pub has_key : String → Fields → Bool
has_key key end = false
has_key key (field k v fs) = k == key || has_key key fs

-- `obj[key]`
unfoldable pub get : String → Fields → Value
get key end = null
get key (field k v fs) = if k == key then v else get key fs

unfoldable pub exact_keys : Fields → List String → Bool
unfolding has_key
exact_keys obj keys = field_count obj == length keys && all (λ key. has_key key obj) keys

-- The type assertions: `none` where `ok` is false.
abbrev pub as_object : Value → Option Fields
as_object (object fs) = some fs
as_object _ = none

abbrev pub as_array : Value → Option Items
as_array (array vs) = some vs
as_array _ = none

abbrev pub as_string : Value → Option String
as_string (string s) = some s
as_string _ = none

abbrev pub as_bool : Value → Option Bool
as_bool (boolean b) = some b
as_bool _ = none

abbrev pub is_null : Value → Bool
is_null null = true
is_null _ = false

unfoldable pub string_value : Value → String
string_value (string s) = s
string_value _ = ""

abbrev int_or_minus_one : Option ℤ → ℤ
int_or_minus_one none = negsuc 0
int_or_minus_one (some n) = n

unfoldable pub integer : Value → ℤ
integer (number s) = int_or_minus_one (parse_int 64 s)
integer _ = negsuc 0

abbrev pub max_safe_integer : ℕ
max_safe_integer = 9007199254740991

-- `none` where the second result is false.
unfoldable pub safe_integer : Value → Bool → Option ℕ
unfolding integer
safe_integer value positive = elim (integer value) [
  | negsuc n ↦ none
  | pos n ↦ if leb n max_safe_integer && (not positive || ltb 0 n) then some n else none
]

-- `none` where the second result is false; `some none` where the key is missing.
unfoldable pub optional_text : Fields → String → ℕ → Option (Option String)
unfolding has_key get
optional_text obj key limit =
    if not (has_key key obj) then some none else elim (as_string (get key obj)) [
      | none ↦ none
      | some s ↦ if valid_text s limit then some (some s) else none
    ]
