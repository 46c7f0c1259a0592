-- ===== src/Service/ThreeWay/Images.antt =====
-- Lemmas on the comparisons of internal/service/packet_issuance.go at the images of a change.
use chrono_desk.Prelude.{
  Bool, Bool-cases, String, arith, if◌then◌else◌, inl, inr, refl, subst, sym, true, ◌&&◌, ◌≡◌,
  and_true, or_left, or_right,
}
use chrono_desk.Prelude.Classes.{string_eq, nat_eq, bool_eq, ◌==◌}
use chrono_desk.Packet.Json.{object, end, field, get, Fields, Value, has_key}
use chrono_desk.Service.ThreeWay.{
  deep_equal, changed_equal_fields, compatible_fields, effect_fields, recursive_changed_equal,
  recursive_compatible, recursive_effect, same_keys,
}
use chrono_desk.Service.ThreeWay.Reflexive.{
  fields_parts, deep_equal_refl, ReadFrom, ReadFrom-self, distinct_keys, distinct_keys_fields,
}

distinct_keys-get :
    (k : String) (fs : Fields) → distinct_keys_fields fs ≡ true → distinct_keys (get k fs) ≡ true
unfolding distinct_keys_fields get
distinct_keys-get k end h = refl
distinct_keys-get k (field j v fs) h =
    let (_, well, rest) = fields_parts (has_key j fs) _ _ h in
    elim (Bool-cases (j == k)) [
      | inl e ↦ rw (e, get) well
      | inr e ↦ rw (e, get) (distinct_keys-get k fs rest)
    ]

nested_if : (t s x y : Bool) → x ≡ true → y ≡ true → (if t then true else if s then x else y) ≡ true
nested_if t s x y h k = ground arith

mutual
  unfolding recursive_compatible distinct_keys

  -- A row that has the operation's image after is compatible with it.
  pub compatible-after : (b a : Value) → distinct_keys a ≡ true → recursive_compatible b a a ≡ true
  compatible-after (object b) (object a) h =
      nested_if (deep_equal (object b) (object a)) (same_keys b a && same_keys b a) _ _
        (compatible_fields-after b a h) (or_right _ _ (deep_equal_refl (object a) h))
  compatible-after b a h = ground (arith, deep_equal_refl a h)

  compatible_fields-after :
      (b a : Fields) → distinct_keys_fields a ≡ true → compatible_fields b a a ≡ true
  compatible_fields-after end a h = refl
  compatible_fields-after (field k v b) a h =
      and_true _ _ (compatible-after v (get k a) (distinct_keys-get k a h))
        (compatible_fields-after b a h)

mutual
  unfolding recursive_compatible distinct_keys distinct_keys_fields

  -- So is a row that has its image before.
  pub compatible-before : (b a : Value) → distinct_keys b ≡ true → recursive_compatible b a b ≡ true
  compatible-before (object b) (object a) h =
      nested_if (deep_equal (object b) (object a)) (same_keys b a && same_keys b b) _ _
        (compatible_fields-before b a b h (ReadFrom-self b h))
        (or_left _ _ (deep_equal_refl (object b) h))
  compatible-before b a h = ground (arith, deep_equal_refl b h)

  compatible_fields-before :
      (b a c : Fields)
      → distinct_keys_fields b ≡ true
      → ReadFrom b c
      → compatible_fields b a c ≡ true
  compatible_fields-before end a c h r = refl
  compatible_fields-before (field k v b) a c h r =
      let (_, well, others) = fields_parts (has_key k b) _ _ h in
      let (_, same, rest) = r in
      and_true _ _
        (subst (λ w. recursive_compatible v (get k a) w ≡ true) (sym same)
          (compatible-before v (get k a) well))
        (compatible_fields-before b a c others rest)

mutual
  unfolding recursive_changed_equal distinct_keys

  -- The image after has the values that the change gives.
  pub changed_equal-after :
      (b a : Value) → distinct_keys a ≡ true → recursive_changed_equal b a a a ≡ true
  changed_equal-after (object b) (object a) h =
      nested_if (deep_equal (object b) (object a)) (same_keys b a && same_keys b a && same_keys b a)
        _ _ (changed_equal_fields-after b a h) (deep_equal_refl (object a) h)
  changed_equal-after b a h = ground (arith, deep_equal_refl a h)

  changed_equal_fields-after :
      (b a : Fields) → distinct_keys_fields a ≡ true → changed_equal_fields b a a a ≡ true
  changed_equal_fields-after end a h = refl
  changed_equal_fields-after (field k v b) a h =
      and_true _ _ (changed_equal-after v (get k a) (distinct_keys-get k a h))
        (changed_equal_fields-after b a h)

effect_if : (t s x y : Bool) → x ≡ true → y ≡ true → (if t then t else if s then x else y) ≡ true
effect_if t s x y h k = ground arith

mutual
  unfolding recursive_effect distinct_keys distinct_keys_fields

  -- A change has its own effect.
  pub effect_self :
      (b a : Value)
      → distinct_keys b ≡ true
      → distinct_keys a ≡ true
      → recursive_effect b a b a ≡ true
  effect_self (object b) (object a) h k =
      effect_if (deep_equal (object b) (object a)) (same_keys b a && same_keys b b && same_keys b a)
        _ _ (effect_fields_self b a b h k (ReadFrom-self b h))
        (and_true _ _ (deep_equal_refl (object a) k) (or_left _ _ (deep_equal_refl (object b) h)))
  effect_self b a h k = ground (arith, deep_equal_refl a k, deep_equal_refl b h)

  effect_fields_self :
      (b a c : Fields)
      → distinct_keys_fields b ≡ true
      → distinct_keys_fields a ≡ true
      → ReadFrom b c
      → effect_fields b a c a ≡ true
  effect_fields_self end a c h k r = refl
  effect_fields_self (field j v b) a c h k r =
      let (_, well, others) = fields_parts (has_key j b) _ _ h in
      let (_, same, rest) = r in
      and_true _ _
        (subst (λ w. recursive_effect v (get j a) w (get j a) ≡ true) (sym same)
          (effect_self v (get j a) well (distinct_keys-get j a k)))
        (effect_fields_self b a c others k rest)
