-- ===== src/Packet/Canonical.antt =====
-- `canonicalJSON` of internal/packetissuance/validation.go: the one text of a decoded value, with
-- sorted keys, whose hash identifies an operation. The result is the code points; `none` is an error.
use chrono_desk.Text.Decimal.{format_int, negsuc, parse_int, pos, ℤ}
use chrono_desk.Text.Chars.{codes, valid_text}
use chrono_desk.Prelude.{
  List, Option, String, [], if◌then◌else◌, leb, ltb, none, some, ℕ, ◌%◌, ◌&&◌, ◌++◌, ◌+◌, ◌-◌, ◌/◌,
  ◌^◌, ◌∷◌,
}
use Prim.Native.String.{compare}
use text.Mathlib.Text.{is_le}
use chrono_desk.Prelude.Classes.{nat_eq, list_eq, ◌==◌}
use chrono_desk.Packet.Json.{
  null, boolean, string, number, array, object, nil, cons, end, field, Fields, Items, Value,
  max_safe_integer,
}

-- A digit of `%04x`.
hex_digit : ℕ → ℕ
hex_digit n = if ltb n 10 then b'0' + n else b'a' + (n - 10)

-- One round of the loop of `writeJSONString`.
escape_char : ℕ → List ℕ
unfolding hex_digit
escape_char r =
    if r == 0x22
    then 0x5c ∷ 0x22 ∷ []
    else if r == 0x5c
    then 0x5c ∷ 0x5c ∷ []
    else if r == 8
    then 0x5c ∷ b'b' ∷ []
    else if r == 12
    then 0x5c ∷ b'f' ∷ []
    else if r == 10
    then 0x5c ∷ b'n' ∷ []
    else if r == 13
    then 0x5c ∷ b'r' ∷ []
    else if r == 9
    then 0x5c ∷ b't' ∷ []
    else if ltb r 0x20
    then 0x5c ∷ b'u' ∷ b'0' ∷ b'0' ∷ hex_digit (r / 16) ∷ hex_digit (r % 16) ∷ []
    else r ∷ []

escape_codes : List ℕ → List ℕ
unfolding escape_char
escape_codes [] = []
escape_codes (r ∷ rs) = escape_char r ++ escape_codes rs

unfoldable pub write_json_string : String → List ℕ
unfolding escape_codes
write_json_string value = 0x22 ∷ (escape_codes (codes value) ++ (0x22 ∷ []))

-- A number is written as it stands if it is the canonical form of a safe integer.
canonical_number : Option ℤ → List ℕ → Option (List ℕ)
canonical_number none s = none
canonical_number (some (negsuc n)) s = none
canonical_number (some (pos n)) s =
    if leb n max_safe_integer && format_int (pos n) == s then some s else none

-- A written field, by its key.
pub record Entry : Type 0 where
  pub key : String
  pub body : List ℕ

-- `sort.Strings` on the keys, each with its written value.
unfoldable pub insert_entry : Entry → List Entry → List Entry
insert_entry e [] = e ∷ []
insert_entry e (x ∷ xs) =
    let rest = insert_entry e xs in if is_le (compare e.key x.key) then e ∷ x ∷ xs else x ∷ rest

unfoldable pub sort_entries : List Entry → List Entry
unfolding insert_entry
sort_entries [] = []
sort_entries (e ∷ es) = insert_entry e (sort_entries es)

join_entries : List Entry → List ℕ
unfolding write_json_string
join_entries [] = []
join_entries (e ∷ []) = write_json_string e.key ++ (b':' ∷ e.body)
join_entries (e ∷ f ∷ rest) =
    write_json_string e.key ++ (b':' ∷ (e.body ++ (b',' ∷ join_entries (f ∷ rest))))

join_items : List (List ℕ) → List ℕ
join_items [] = []
join_items (x ∷ []) = x
join_items (x ∷ y ∷ rest) = x ++ (b',' ∷ join_items (y ∷ rest))

abbrev option_cons {ℓ} : {A : Type ℓ} → Option A → Option (List A) → Option (List A)
option_cons none xs = none
option_cons (some x) none = none
option_cons (some x) (some xs) = some (x ∷ xs)

abbrev entry_of : String → Option (List ℕ) → Option Entry
entry_of k none = none
entry_of k (some body) = some (record { key = k; body = body })

abbrev bracket : ℕ → ℕ → Option (List ℕ) → Option (List ℕ)
bracket open_ close none = none
bracket open_ close (some body) = some (open_ ∷ (body ++ (close ∷ [])))

abbrev joined_items : Option (List (List ℕ)) → Option (List ℕ)
joined_items none = none
joined_items (some xs) = some (join_items xs)

abbrev joined_entries : Option (List Entry) → Option (List ℕ)
joined_entries none = none
joined_entries (some es) = some (join_entries (sort_entries es))

-- The limit of a text here is the greatest int.
unfoldable mutual
  unfolding canonical_number join_items join_entries sort_entries

  pub write_canonical : Value → Option (List ℕ)
  write_canonical null = some (codes "null")
  write_canonical (boolean b) = some (if b then codes "true" else codes "false")
  write_canonical (string s) =
      if valid_text s (2 ^ 63 - 1) then some (write_json_string s) else none
  write_canonical (number s) = canonical_number (parse_int 64 s) (codes s)
  write_canonical (array vs) = bracket b'[' b']' (joined_items (write_items vs))
  write_canonical (object fs) = bracket b'{' b'}' (joined_entries (write_fields fs))

  pub write_items : Items → Option (List (List ℕ))
  write_items nil = some []
  write_items (cons v vs) = option_cons (write_canonical v) (write_items vs)

  pub write_fields : Fields → Option (List Entry)
  write_fields end = some []
  write_fields (field k v fs) = option_cons (entry_of k (write_canonical v)) (write_fields fs)
