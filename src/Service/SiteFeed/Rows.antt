-- ===== src/Service/SiteFeed/Rows.antt =====
-- One row of the site feed: `mergePacketFeedChange`, `packetFeedProjection` and `uniquePacketHeads` of
-- internal/service/packet_issuance_feed.go.
use chrono_desk.Prelude.Classes.{◌==◌}
use chrono_desk.Packet.Operation.{status_of}
use chrono_desk.Packet.Bootstrap.{remove_key}
use chrono_desk.Service.Decision.{packet_value}
use chrono_desk.Service.ThreeWay.{deep_equal, merge_packet_feed_value}
use chrono_desk.Store.Registrations.{PacketRegistrationRecord}
use chrono_desk.Packet.Json.{Fields, Value, boolean, get, null, object, string}
use chrono_desk.Prelude.Classes.{string_eq, ◌==◌}
use Prim.Native.String.{compare}
use package.text.Mathlib.Text.{is_lt}
use chrono_desk.Packet.FeedChange.{FeedChange}
use chrono_desk.Prelude.{
  [], Bool, List, Option, String, any, false, if◌then◌else◌, none, some, ◌||◌, ◌∷◌,
}
use chrono_desk.Packet.Model.{◌>>=◌, Person, Registration, Result, err, invalid, ok}

without_evidence : Value → Value
without_evidence (object fields) = object (remove_key "hasTimingEvidence" fields)
without_evidence value = value

unfoldable pub packet_feed_projection : Registration → Value
unfolding packet_value without_evidence
packet_feed_projection r = without_evidence (packet_value r)

unfoldable pub same_projection : Registration → Registration → Bool
unfolding packet_feed_projection
same_projection a b = deep_equal (packet_feed_projection a) (packet_feed_projection b)

-- What `json.Unmarshal` makes of a field: null leaves it as it is, another type is an error.
string_into : Value → Result String
string_into null = ok ""
string_into (string s) = ok s
string_into _ = err invalid

bool_into : Value → Result Bool
bool_into null = ok false
bool_into (boolean b) = ok b
bool_into _ = err invalid

unfoldable pub string_pointer_into : Value → Result (Option String)
string_pointer_into null = ok none
string_pointer_into (string s) = ok (some s)
string_pointer_into _ = err invalid

unfoldable pub person_into : Value → Result (Option Person)
unfolding string_into
person_into null = ok none
person_into (object fields) = do
  id ← string_into (get "id" fields)
  first_name ← string_into (get "firstName" fields)
  last_name ← string_into (get "lastName" fields)
  birth_date ← string_into (get "birthDate" fields)
  gender ← string_into (get "gender" fields)
  team ← string_into (get "team" fields)
  city ← string_into (get "city" fields)
  ok (
      some (record {
        id = id;
        first_name = first_name;
        last_name = last_name;
        birth_date = birth_date;
        gender = gender;
        team = team;
        city = city;
      }))
person_into _ = err invalid

fields_into : Fields → Result Registration
unfolding string_into bool_into string_pointer_into person_into status_of
fields_into fields = do
  id ← string_into (get "id" fields)
  event_id ← string_into (get "eventId" fields)
  race_id ← string_into (get "raceId" fields)
  bib ← string_into (get "bib" fields)
  epc ← string_into (get "epc" fields)
  person ← person_into (get "person" fields)
  reserve ← bool_into (get "reserve" fields)
  issued ← bool_into (get "issued" fields)
  status ← string_into (get "status" fields)
  target ← string_pointer_into (get "transferredTo" fields)
  evidence ← bool_into (get "hasTimingEvidence" fields)
  ok (record {
    id = id;
    event_id = event_id;
    race_id = race_id;
    bib = bib;
    epc = epc;
    person = person;
    reserve = reserve;
    issued = issued;
    status = status_of status;
    transferred_to = target;
    has_timing_evidence = evidence;
  })

unfoldable pub registration_of : Value → Result Registration
unfolding fields_into
registration_of (object fields) = fields_into fields
registration_of _ = err invalid

-- The row that the change gives, `none` for a deleted one, or the code for the review. `nil_pointer` is the panic on a
-- change without an image, which the parser of the feed refuses.
pub data Merged : Type 0 where
  merged : Option Registration → Merged
  held : String → Merged
  nil_pointer : Merged

unfoldable pub merged_row : Result Registration → Registration → Merged
merged_row (err e) current = held "feed_state_conflict"
merged_row (ok r) current =
    merged (some (record r { has_timing_evidence = current.has_timing_evidence }))

unfoldable pub merged_value : Option Value → Registration → Merged
unfolding merged_row registration_of
merged_value none current = held "feed_state_conflict"
merged_value (some value) current = merged_row (registration_of value) current

unfoldable pub merge_images :
    Option Registration → Option Registration → Option Registration → Merged
unfolding same_projection merged_value packet_feed_projection merge_packet_feed_value
merge_images none none current = nil_pointer
merge_images none (some after) none = merged (some (record after { has_timing_evidence = false }))
merge_images none (some after) (some current) =
    if same_projection current after then merged (some current) else held "feed_lifecycle_conflict"
merge_images (some before) none none = merged none
merge_images (some before) none (some current) =
    if same_projection current before then merged none else held "feed_lifecycle_conflict"
merge_images (some before) (some after) none = held "feed_lifecycle_conflict"
merge_images (some before) (some after) (some current) =
    merged_value
      (merge_packet_feed_value (packet_feed_projection before) (packet_feed_projection after)
        (packet_feed_projection current))
      current

-- The value of a row that is there and not deleted.
unfoldable pub current_value : Option PacketRegistrationRecord → Option Registration
current_value none = none
current_value (some r) = if r.deleted then none else some r.value

unfoldable pub merge_packet_feed_change : Option PacketRegistrationRecord → FeedChange → Merged
unfolding current_value merge_images
merge_packet_feed_change current c = merge_images c.before c.after (current_value current)

unfoldable pub unique_heads : List String → List String → List String
unique_heads seen [] = []
unique_heads seen (head ∷ heads) =
    if head == "" || any (λ h. h == head) seen
    then unique_heads seen heads
    else head ∷ unique_heads (head ∷ seen) heads

-- `sort.Strings`
insert_head : String → List String → List String
insert_head h [] = h ∷ []
insert_head h (x ∷ xs) = if is_lt (compare x h) then x ∷ insert_head h xs else h ∷ x ∷ xs

sort_heads : List String → List String
unfolding insert_head
sort_heads [] = []
sort_heads (h ∷ hs) = insert_head h (sort_heads hs)

unfoldable pub unique_packet_heads : List String → List String
unfolding unique_heads sort_heads
unique_packet_heads heads = sort_heads (unique_heads [] heads)
