-- ===== src/Service/ThreeWay/Agreement.antt =====
-- Proofs on `mergePacketFeedValue` (internal/service/packet_issuance_feed.go) and
-- `recursiveCompatible` (internal/service/packet_issuance.go).
use chrono_desk.Service.ThreeWay.{
  as_map, compatible_fields, merge_fields, merge_packet_feed_value, put_field, recursive_compatible,
}
use chrono_desk.Prelude.{Option, String, arith, is_some, none, refl, some, ◌&&◌, ◌≡◌}
use chrono_desk.Packet.Json.{object, end, field, get, Fields, Value}

is_some-put_field :
    (k : String) (v : Option Value) (fs : Option Fields)
    → is_some (put_field k v fs) ≡ (is_some v && is_some fs)
is_some-put_field k none fs = refl
is_some-put_field k (some v) none = refl
is_some-put_field k (some v) (some fs) = refl

is_some-as_map : (fs : Option Fields) → is_some (as_map fs) ≡ is_some fs
is_some-as_map none = refl
is_some-as_map (some fs) = refl

mutual
  unfolding merge_packet_feed_value recursive_compatible

  merge-compatible :
      (before after current : Value)
      → is_some (merge_packet_feed_value before after current)
        ≡ recursive_compatible before after current
  merge-compatible (object b) (object a) (object c) =
      ground (arith, is_some-as_map (merge_fields b a c), merge_fields-compatible b a c)
  merge-compatible before after current = ground arith

  merge_fields-compatible :
      (b a c : Fields) → is_some (merge_fields b a c) ≡ compatible_fields b a c
  merge_fields-compatible end a c = refl
  merge_fields-compatible (field k v b) a c = ground (
    arith,
    is_some-put_field k (merge_packet_feed_value v (get k a) (get k c)) (merge_fields b a c),
    merge-compatible v (get k a) (get k c),
    merge_fields-compatible b a c,
  )

-- `mergePacketFeedValue` succeeds exactly when `recursiveCompatible` accepts the same before, after
-- and current values, so that a change from the site and an operation from a tablet meet one rule.
pub is_some-merge_packet_feed_value :
    (before after current : Value)
    → is_some (merge_packet_feed_value before after current)
      ≡ recursive_compatible before after current
is_some-merge_packet_feed_value before after current = merge-compatible before after current
