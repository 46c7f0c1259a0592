-- ===== src/Service/ThreeWay.antt =====
-- The three-way comparison and merge of decoded JSON: `recursiveCompatible`, `recursiveChangedEqual`
-- and `recursiveEffect` of internal/service/packet_issuance.go, and `mergePacketFeedValue` of
-- internal/service/packet_issuance_feed.go. A map is met in the order of its fields; the loops have
-- the same result in every order.
pub mod Agreement
pub mod Unchanged
pub mod Reflexive
pub mod Images
use chrono_desk.Prelude.{Bool, Option, String, false, if◌then◌else◌, none, some, true, ◌&&◌, ◌||◌}
use chrono_desk.Prelude.Classes.{string_eq, bool_eq, nat_eq, ◌==◌}
use chrono_desk.Packet.Json.{
  null, boolean, string, number, array, object, nil, cons, end, field, get, Fields, Items, Value,
  field_count, has_key,
}

-- `reflect.DeepEqual` on decoded JSON: maps are equal if they have the same keys with equal values.
unfoldable mutual
  unfolding get has_key

  pub deep_equal : Value → Value → Bool
  deep_equal null null = true
  deep_equal (boolean a) (boolean b) = a == b
  deep_equal (string a) (string b) = a == b
  deep_equal (number a) (number b) = a == b
  deep_equal (array xs) (array ys) = deep_equal_items xs ys
  deep_equal (object fs) (object gs) = field_count fs == field_count gs && deep_equal_fields fs gs
  deep_equal _ _ = false

  pub deep_equal_items : Items → Items → Bool
  deep_equal_items nil nil = true
  deep_equal_items (cons x xs) (cons y ys) = deep_equal x y && deep_equal_items xs ys
  deep_equal_items _ _ = false

  pub deep_equal_fields : Fields → Fields → Bool
  deep_equal_fields end gs = true
  deep_equal_fields (field k v fs) gs =
      has_key k gs && deep_equal v (get k gs) && deep_equal_fields fs gs

-- Every key of the first map is in the second.
unfoldable pub keys_in : Fields → Fields → Bool
unfolding has_key
keys_in end gs = true
keys_in (field k v fs) gs = has_key k gs && keys_in fs gs

unfoldable pub same_keys : Fields → Fields → Bool
unfolding keys_in
same_keys left right = field_count left == field_count right && keys_in left right

unfoldable mutual
  pub recursive_compatible : Value → Value → Value → Bool
  recursive_compatible (object b) (object a) (object c) =
      if deep_equal (object b) (object a)
      then true
      else (let fields = compatible_fields b a c in
          if same_keys b a && same_keys b c
          then fields
          else deep_equal (object c) (object b) || deep_equal (object c) (object a))
  recursive_compatible before after current =
      if deep_equal before after
      then true
      else deep_equal current before || deep_equal current after

  pub compatible_fields : Fields → Fields → Fields → Bool
  compatible_fields end a c = true
  compatible_fields (field k v b) a c =
      recursive_compatible v (get k a) (get k c) && compatible_fields b a c

-- Two pairs agree where the change from `before` to `after` touches them.
unfoldable mutual
  pub recursive_changed_equal : Value → Value → Value → Value → Bool
  recursive_changed_equal (object b) (object a) (object l) (object r) =
      if deep_equal (object b) (object a)
      then true
      else (let fields = changed_equal_fields b a l r in
          if same_keys b a && same_keys b l && same_keys b r
          then fields
          else deep_equal (object l) (object r))
  recursive_changed_equal before after left right =
      if deep_equal before after then true else deep_equal left right

  pub changed_equal_fields : Fields → Fields → Fields → Fields → Bool
  changed_equal_fields end a l r = true
  changed_equal_fields (field k v b) a l r =
      recursive_changed_equal v (get k a) (get k l) (get k r) && changed_equal_fields b a l r

-- The actual change has the effect of the expected one.
unfoldable mutual
  pub recursive_effect : Value → Value → Value → Value → Bool
  recursive_effect (object b) (object a) (object ab) (object aa) =
      if deep_equal (object b) (object a)
      then deep_equal (object ab) (object aa)
      else (let fields = effect_fields b a ab aa in
          if same_keys b a && same_keys b ab && same_keys b aa
          then fields
          else deep_equal (object aa) (object a)
            && (deep_equal (object ab) (object b) || deep_equal (object ab) (object a)))
  recursive_effect before after actual_before actual_after =
      if deep_equal before after
      then deep_equal actual_before actual_after
      else deep_equal actual_after after
        && (deep_equal actual_before before || deep_equal actual_before after)

  pub effect_fields : Fields → Fields → Fields → Fields → Bool
  effect_fields end a ab aa = true
  effect_fields (field k v b) a ab aa =
      recursive_effect v (get k a) (get k ab) (get k aa) && effect_fields b a ab aa

abbrev put_field : String → Option Value → Option Fields → Option Fields
put_field k none fs = none
put_field k (some v) none = none
put_field k (some v) (some fs) = some (field k v fs)

abbrev as_map : Option Fields → Option Value
as_map none = none
as_map (some fs) = some (object fs)

-- `none` where the second result is false.
unfoldable mutual
  pub merge_packet_feed_value : Value → Value → Value → Option Value
  merge_packet_feed_value (object b) (object a) (object c) =
      if deep_equal (object b) (object a)
      then some (object c)
      else (let fields = as_map (merge_fields b a c) in
          if same_keys b a && same_keys b c
          then fields
          else if deep_equal (object c) (object b) || deep_equal (object c) (object a)
          then some (object a)
          else none)
  merge_packet_feed_value before after current =
      if deep_equal before after
      then some current
      else if deep_equal current before || deep_equal current after
      then some after
      else none

  pub merge_fields : Fields → Fields → Fields → Option Fields
  merge_fields end a c = some end
  merge_fields (field k v b) a c =
      put_field k (merge_packet_feed_value v (get k a) (get k c)) (merge_fields b a c)
