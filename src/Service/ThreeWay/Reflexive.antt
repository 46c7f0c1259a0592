-- ===== src/Service/ThreeWay/Reflexive.antt =====
-- Lemmas on `reflect.DeepEqual` as internal/service/packet_issuance.go uses it.
use chrono_desk.Prelude.{
  Bool, String, arith, false, not, refl, true, ◌&&◌, ◌≡◌, subst, sym, and_parts, and_true, or_left,
}
use chrono_desk.Prelude.Classes.{string_eq, nat_eq, bool_eq, eq_refl, equal_sym, ◌==◌}
use chrono_desk.Packet.Json.{
  null, boolean, string, number, array, object, nil, cons, end, field, get, Fields, Items, Value,
  field_count, has_key,
}
use chrono_desk.Service.ThreeWay.{deep_equal, deep_equal_fields, deep_equal_items}

-- No object of the value has a key twice.
unfoldable mutual
  unfolding has_key

  pub distinct_keys : Value → Bool
  distinct_keys (array xs) = distinct_keys_items xs
  distinct_keys (object fs) = distinct_keys_fields fs
  distinct_keys _ = true

  pub distinct_keys_items : Items → Bool
  distinct_keys_items nil = true
  distinct_keys_items (cons x xs) = distinct_keys x && distinct_keys_items xs

  pub distinct_keys_fields : Fields → Bool
  distinct_keys_fields end = true
  distinct_keys_fields (field k v fs) =
      not (has_key k fs) && distinct_keys v && distinct_keys_fields fs

all_three : (a b c : Bool) → a ≡ true → b ≡ true → c ≡ true → (a && b && c) ≡ true
all_three a b c h k l = ground arith

pub fields_parts : (a b c : Bool) → (not a && b && c) ≡ true → (a ≡ false) × (b ≡ true) × (c ≡ true)
fields_parts a b c h = ground arith

-- The fields of the first map are read from the second.
abbrev pub ReadFrom : Fields → Fields → Type 0
ReadFrom end gs = Unit
ReadFrom (field k v fs) gs = (has_key k gs ≡ true) × (get k gs ≡ v) × ReadFrom fs gs

ReadFrom-field :
    (k : String) (v : Value) (fs gs : Fields)
    → has_key k fs ≡ false
    → ReadFrom fs gs
    → ReadFrom fs (field k v gs)
unfolding has_key get
ReadFrom-field k v end gs n h = tt
ReadFrom-field k v (field j w fs) gs n h =
    let (a, b, rest) = h in
    let other : (k == j) ≡ false = equal_sym j k (ground arith) in
    (ground arith, rw (other, get) b, ReadFrom-field k v fs gs (ground arith) rest)

pub ReadFrom-self : (fs : Fields) → distinct_keys_fields fs ≡ true → ReadFrom fs fs
unfolding distinct_keys_fields has_key get
ReadFrom-self end h = tt
ReadFrom-self (field k v fs) h =
    let (new, _, rest) = fields_parts (has_key k fs) _ _ h in
    (
      or_left (k == k) _ (eq_refl k),
      rw (eq_refl k) refl,
      ReadFrom-field k v fs fs new (ReadFrom-self fs rest),
    )

mutual
  unfolding deep_equal distinct_keys distinct_keys_items distinct_keys_fields

  pub deep_equal_refl : (v : Value) → distinct_keys v ≡ true → deep_equal v v ≡ true
  deep_equal_refl null h = refl
  deep_equal_refl (boolean b) h = eq_refl b
  deep_equal_refl (string s) h = eq_refl s
  deep_equal_refl (number s) h = eq_refl s
  deep_equal_refl (array xs) h = deep_equal_items_refl xs h
  deep_equal_refl (object fs) h =
      and_true _ _ (eq_refl (field_count fs)) (deep_equal_fields_refl fs fs h (ReadFrom-self fs h))

  pub deep_equal_items_refl :
      (xs : Items) → distinct_keys_items xs ≡ true → deep_equal_items xs xs ≡ true
  deep_equal_items_refl nil h = refl
  deep_equal_items_refl (cons x xs) h =
      let (a, b) = and_parts _ _ h in
      and_true _ _ (deep_equal_refl x a) (deep_equal_items_refl xs b)

  pub deep_equal_fields_refl :
      (fs gs : Fields)
      → distinct_keys_fields fs ≡ true
      → ReadFrom fs gs
      → deep_equal_fields fs gs ≡ true
  deep_equal_fields_refl end gs h r = refl
  deep_equal_fields_refl (field k v fs) gs h r =
      let (a, b, rest) = r in
      let (_, well, others) = fields_parts (has_key k fs) _ _ h in
      all_three _ _ _ a (subst (λ w. deep_equal v w ≡ true) (sym b) (deep_equal_refl v well))
        (deep_equal_fields_refl fs gs others rest)
