-- ===== src/Service/ThreeWay/Unchanged.antt =====
-- `mergePacketFeedValue` of internal/service/packet_issuance_feed.go on values of one shape, where the
-- current value is the one before the change.
use chrono_desk.Service.ThreeWay.{
  deep_equal, deep_equal_fields, as_map, keys_in, merge_fields, merge_packet_feed_value, same_keys,
  put_field,
}
use chrono_desk.Service.ThreeWay.Reflexive.{
  ReadFrom, ReadFrom-self, distinct_keys, distinct_keys_fields, fields_parts, deep_equal_refl,
}
use chrono_desk.Prelude.{
  Bool, all, and_parts, ap, arith, false, refl, subst, true, ◌&&◌, ◌∙◌, ◌≡◌, and_true,
  if◌then◌else◌, some, suc, ◌||◌, none,
}
use chrono_desk.Prelude.Classes.{string_eq, bool_eq, nat_eq, eq_iff, eq_refl}
use chrono_desk.Packet.Json.{
  null, boolean, string, number, array, object, end, field, get, Fields, Value, has_key,
  field_count,
}

-- Where both values are objects, they have the same keys in one order; arrays are the same.
unfoldable mutual
  pub SameShape : Value → Value → Type 0
  SameShape (object fs) (object gs) = SameShapeFields fs gs
  SameShape (array xs) (array ys) = xs ≡ ys
  SameShape _ _ = Unit

  pub SameShapeFields : Fields → Fields → Type 0
  SameShapeFields end end = Unit
  SameShapeFields (field k v fs) (field j w gs) = (k ≡ j) × SameShape v w × SameShapeFields fs gs
  SameShapeFields _ _ = true ≡ false

three : (a b c : Bool) → (a && b && c) ≡ true → (a ≡ true) × (b ≡ true) × (c ≡ true)
three a b c h = ground arith

mutual
  unfolding deep_equal SameShape distinct_keys distinct_keys_fields

  pub deep_equal-SameShape :
      (v w : Value) → SameShape v w → distinct_keys w ≡ true → deep_equal v w ≡ true → v ≡ w
  deep_equal-SameShape null null s d h = refl
  deep_equal-SameShape (boolean a) (boolean b) s d h = ap boolean ((eq_iff a b).0 h)
  deep_equal-SameShape (string a) (string b) s d h = ap string ((eq_iff a b).0 h)
  deep_equal-SameShape (number a) (number b) s d h = ap number ((eq_iff a b).0 h)
  deep_equal-SameShape (array xs) (array ys) s d h = ap array s
  deep_equal-SameShape (object fs) (object gs) s d h =
      let (_, q) = and_parts _ _ h in
      ap object (deep_equal_fields-SameShape fs gs gs s d (ReadFrom-self gs d) q)
  deep_equal-SameShape v w s d h = cc

  deep_equal_fields-SameShape :
      (fs gs all : Fields)
      → SameShapeFields fs gs
      → distinct_keys_fields gs ≡ true
      → ReadFrom gs all
      → deep_equal_fields fs all ≡ true
      → fs ≡ gs
  deep_equal_fields-SameShape end end all s d r h = refl
  deep_equal_fields-SameShape (field k v fs) (field j w gs) all (same, s, ss) d (_, q, rest) h =
      let (_, well, others) = fields_parts (has_key j gs) _ _ d in
      let (_, equal, equals) = three _ _ _ h in
      let first : v ≡ w =
        deep_equal-SameShape v w s well
          (subst (λ x. deep_equal v x ≡ true) (ap (λ x. get x all) same ∙ q) equal) in
      ap (λ x. field x v fs) same
      ∙ ap (λ x. field j x fs) first
      ∙ ap (field j w) (deep_equal_fields-SameShape fs gs all ss others rest equals)
  deep_equal_fields-SameShape fs gs all s d r h = cc

pick :
    {A : Type 0} (t s u : Bool) (x f y z : A)
    → (t ≡ true → x ≡ y)
    → s ≡ true
    → f ≡ y
    → (if t then x else if s then f else if u then y else z) ≡ y
pick true s u x f y z p q r = p refl
pick false true u x f y z p q r = r
pick false false u x f y z p q r = cc

pick_after :
    {A : Type 0} (t u v : Bool) (x y z : A)
    → (t ≡ true → x ≡ y)
    → u ≡ true
    → (if t then x else if u || v then y else z) ≡ y
pick_after true u v x y z p q = p refl
pick_after false true v x y z p q = refl
pick_after false false v x y z p q = cc

field_count-SameShape : (fs gs : Fields) → SameShapeFields fs gs → field_count fs ≡ field_count gs
unfolding SameShape
field_count-SameShape end end s = refl
field_count-SameShape (field k v fs) (field j w gs) (_, _, ss) =
    ap suc (field_count-SameShape fs gs ss)
field_count-SameShape fs gs s = cc

keys_in-SameShape :
    (fs gs all : Fields) → SameShapeFields fs gs → ReadFrom gs all → keys_in fs all ≡ true
unfolding SameShape keys_in
keys_in-SameShape end gs all s r = refl
keys_in-SameShape (field k v fs) (field j w gs) all (same, _, ss) (has, _, rest) =
    and_true _ _ (ap (λ x. has_key x all) same ∙ has) (keys_in-SameShape fs gs all ss rest)
keys_in-SameShape fs gs all s r = cc

same_keys-SameShape :
    (fs gs : Fields)
    → SameShapeFields fs gs
    → distinct_keys_fields gs ≡ true
    → same_keys fs gs ≡ true
unfolding same_keys
same_keys-SameShape fs gs s d =
    and_true _ _ ((eq_iff _ _).1 (field_count-SameShape fs gs s))
      (keys_in-SameShape fs gs gs s (ReadFrom-self gs d))

keys_in-ReadFrom : (fs all : Fields) → ReadFrom fs all → keys_in fs all ≡ true
unfolding keys_in
keys_in-ReadFrom end all r = refl
keys_in-ReadFrom (field k v fs) all (has, _, rest) = and_true _ _ has (keys_in-ReadFrom fs all rest)

same_keys_refl : (fs : Fields) → distinct_keys_fields fs ≡ true → same_keys fs fs ≡ true
unfolding same_keys
same_keys_refl fs d =
    and_true _ _ (eq_refl (field_count fs)) (keys_in-ReadFrom fs fs (ReadFrom-self fs d))

mutual
  unfolding merge_packet_feed_value SameShape distinct_keys distinct_keys_fields

  pub merge-before :
      (b a : Value)
      → SameShape b a
      → distinct_keys b ≡ true
      → distinct_keys a ≡ true
      → merge_packet_feed_value b a b ≡ some a
  merge-before (object b) (object a) s d e =
      pick (deep_equal (object b) (object a)) (same_keys b a && same_keys b b)
        (deep_equal (object b) (object b) || deep_equal (object b) (object a)) _ _ _ none
        (λ h. ap some (deep_equal-SameShape (object b) (object a) s e h))
        (and_true _ _ (same_keys-SameShape b a s e) (same_keys_refl b d))
        (ap as_map (merge_fields-before b a a b s d e (ReadFrom-self a e) (ReadFrom-self b d)))
  merge-before b a s d e =
      pick_after (deep_equal b a) (deep_equal b b) (deep_equal b a) _ _ _
        (λ h. ap some (deep_equal-SameShape b a s e h)) (deep_equal_refl b d)

  merge_fields-before :
      (b a all before : Fields)
      → SameShapeFields b a
      → distinct_keys_fields b ≡ true
      → distinct_keys_fields a ≡ true
      → ReadFrom a all
      → ReadFrom b before
      → merge_fields b all before ≡ some a
  merge_fields-before end end all before s d e r q = refl
  merge_fields-before (field k v b) (field j w a) all before (same, s, ss) d e (_, x, r) (_, y, q) =
      let (_, well, others) = fields_parts (has_key k b) _ _ d in
      let (_, well2, others2) = fields_parts (has_key j a) _ _ e in
      let here : merge_packet_feed_value v (get k all) (get k before) ≡ some w =
        ap (λ z. merge_packet_feed_value v z (get k before)) (ap (λ i. get i all) same ∙ x)
        ∙ ap (merge_packet_feed_value v w) y
        ∙ merge-before v w s well well2 in
      ap (λ z. put_field k z (merge_fields b all before)) here
      ∙ ap (put_field k (some w)) (merge_fields-before b a all before ss others others2 r q)
      ∙ ap (λ i. some (field i w a)) same
  merge_fields-before b a all before s d e r q = cc
