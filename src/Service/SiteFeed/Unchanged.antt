-- ===== src/Service/SiteFeed/Unchanged.antt =====
-- A change of the site on a row that the desk has as the site had it: `mergePacketFeedChange` of
-- internal/service/packet_issuance_feed.go.
use chrono_desk.Service.Decision.Shapes.{SameShape-optional_string, SameShape-person_value}
use chrono_desk.Service.ThreeWay.{merge_packet_feed_value}
use chrono_desk.Packet.Validate.Parts.{IsValid-validate_registration}
use chrono_desk.Packet.Operation.{status_of}
use chrono_desk.Service.SiteFeed.Rows.{
  merge_images, merge_packet_feed_change, merged_value, packet_feed_projection, person_into,
  registration_of, string_pointer_into, current_value, merged_row,
}
use chrono_desk.Packet.Validate.{known_status, validate_registration}
use chrono_desk.Service.Decision.Replay.{distinct_keys-optional_string, distinct_keys-person_value}
use chrono_desk.Service.ThreeWay.Reflexive.{distinct_keys}
use chrono_desk.Service.ThreeWay.Unchanged.{SameShape, merge-before}
use chrono_desk.Service.SiteFeed.Rows.{merged}
use chrono_desk.Packet.Bootstrap.{remove_key}
use chrono_desk.Packet.Json.{get}
use chrono_desk.Service.Decision.{person_value, optional_string, status_text}
use chrono_desk.Prelude.{
  Bool, List, Option, String, and_true, false, none, refl, some, true, ◌≡◌, ap, ◌∙◌,
}
use chrono_desk.Packet.Model.{
  registered, dns, dnf, dsq, other_status, Person, Registration, Status, ok,
}

SameShape-packet_feed_projection :
    (b a : Registration) → SameShape (packet_feed_projection b) (packet_feed_projection a)
unfolding SameShape packet_feed_projection remove_key
SameShape-packet_feed_projection b a = (
  refl,
  tt,
  (
    refl,
    tt,
    (
      refl,
      tt,
      (
        refl,
        tt,
        (
          refl,
          tt,
          (
            refl,
            SameShape-person_value b.person a.person,
            (
              refl,
              tt,
              (
                refl,
                tt,
                (refl, tt, (refl, SameShape-optional_string b.transferred_to a.transferred_to, tt)),
              ),
            ),
          ),
        ),
      ),
    ),
  ),
)

distinct_keys-packet_feed_projection :
    (r : Registration) → distinct_keys (packet_feed_projection r) ≡ true
unfolding distinct_keys packet_feed_projection remove_key
distinct_keys-packet_feed_projection r =
    and_true _ _ (distinct_keys-person_value r.person)
      (and_true _ true (distinct_keys-optional_string r.transferred_to) refl)

status_of-status_text : (s : Status) → known_status s ≡ true → status_of (status_text s) ≡ s
unfolding status_of known_status
status_of-status_text registered h = refl
status_of-status_text dns h = refl
status_of-status_text dnf h = refl
status_of-status_text dsq h = refl
status_of-status_text (other_status s) h = cc

person_into-person_value : (p : Option Person) → person_into (person_value p) ≡ ok p
unfolding person_into get
person_into-person_value none = refl
person_into-person_value (some p) = refl

string_pointer_into-optional_string :
    (s : Option String) → string_pointer_into (optional_string s) ≡ ok s
unfolding string_pointer_into
string_pointer_into-optional_string none = refl
string_pointer_into-optional_string (some s) = refl

-- The row is read back from its JSON.
registration_of-packet_feed_projection :
    (r : Registration)
    → known_status r.status ≡ true
    → registration_of (packet_feed_projection r) ≡ ok (record r { has_timing_evidence = false })
unfolding registration_of packet_feed_projection remove_key get
registration_of-packet_feed_projection r h =
    rw
      (
        person_into-person_value r.person,
        string_pointer_into-optional_string r.transferred_to,
        status_of-status_text r.status h,
      )
      refl

-- Where the desk has a row as it was before a change of the site, but for its timing evidence, and the row
-- after the change is valid, the change is merged to the row after it, with the timing evidence that the
-- desk has of the row.
pub merge_packet_feed_change-unchanged :
    (id : String) (before after : Registration) (heads : List String) (evidence : Bool)
    → validate_registration after ≡ ok tt
    → merge_packet_feed_change
        (some (record {
          value = record before { has_timing_evidence = evidence };
          heads = heads;
          deleted = false;
        }))
        (record { registration_id = id; before = some before; after = some after })
      ≡ merged (some (record after { has_timing_evidence = evidence }))
unfolding merge_packet_feed_change merge_images merged_value merged_row packet_feed_projection
    remove_key current_value
merge_packet_feed_change-unchanged id before after heads evidence valid =
    let current = record before { has_timing_evidence = evidence } in
    let known = (IsValid-validate_registration after valid).status_ok in
    let site : merge_packet_feed_value (packet_feed_projection before)
          (packet_feed_projection after) (packet_feed_projection current)
        ≡ some (packet_feed_projection after) =
      merge-before (packet_feed_projection before) (packet_feed_projection after)
        (SameShape-packet_feed_projection before after)
        (distinct_keys-packet_feed_projection before)
        (distinct_keys-packet_feed_projection after) in
    ap (λ m. merged_value m current) site
    ∙ ap (λ r. merged_row r current) (registration_of-packet_feed_projection after known)
