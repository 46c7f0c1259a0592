-- ===== src/Packet/Operation.antt =====
-- The operation of internal/packetissuance/model.go, and how validation.go reads rows, persons,
-- bases and changes from decoded JSON.
use chrono_desk.Packet.Validate.{validate_person, validate_registration}
use chrono_desk.Text.Decimal.{ℤ}
use chrono_desk.Text.Chars.{identifier_pattern, uuid_pattern}
use chrono_desk.Packet.Json.{
  Value, as_array, as_bool, as_object, as_string, exact_keys, get, is_null, item_count, items_list,
  string_value,
}
use chrono_desk.Prelude.{
  Bool, List, Option, String, [], if◌then◌else◌, leb, none, not, some, true, ℕ, ◌||◌, ◌∷◌,
}
use Prim.Native.String.{compare}
use package.text.Mathlib.Text.{is_lt}
use chrono_desk.Packet.Model.{
  registered, dns, dnf, dsq, other_status, invalid, ok, Change, Command, Person, Registration,
  Result, Status, fail_if, or_fail, ◌>>=◌, ◌>>◌,
}
use chrono_desk.Prelude.Classes.{string_eq, ◌==◌}

pub record Base : Type 0 where
  pub registration_id : String
  pub heads : List String

pub record Operation : Type 0 where
  pub schema_version : ℤ
  pub operation_id : String
  pub scope_id : String
  pub baseline_id : String
  pub origin_instance_id : String
  pub origin_sequence : ℕ
  pub created_at_ms : ℕ
  pub claimed_actor : String
  pub command : Command
  pub bases : List Base
  pub changes : List Change
  pub note : Option String
  pub canonical : List ℕ

abbrev person_keys : List String
person_keys = "id" ∷ "firstName" ∷ "lastName" ∷ "birthDate" ∷ "gender" ∷ "team" ∷ "city" ∷ []

unfoldable pub parse_person : Value → Result Person
unfolding exact_keys get string_value validate_person
parse_person value = do
  obj ← or_fail (as_object value) invalid
  fail_if (not (exact_keys obj person_keys)) invalid
  let p : Person = record {
    id = string_value (get "id" obj);
    first_name = string_value (get "firstName" obj);
    last_name = string_value (get "lastName" obj);
    birth_date = string_value (get "birthDate" obj);
    gender = string_value (get "gender" obj);
    team = string_value (get "team" obj);
    city = string_value (get "city" obj);
  }
  validate_person p
  ok p

unfoldable pub status_of : String → Status
status_of s =
    if s == "registered"
    then registered
    else if s == "dns"
    then dns
    else if s == "dnf"
    then dnf
    else if s == "dsq"
    then dsq
    else other_status s

unfoldable pub parse_optional_person : Value → Result (Option Person)
unfolding parse_person
parse_optional_person value =
    if is_null value then ok none else (do p ← parse_person value; ok (some p))

unfoldable pub parse_optional_string : Value → Result (Option String)
parse_optional_string value =
    if is_null value then ok none else (do s ← or_fail (as_string value) invalid; ok (some s))

abbrev registration_keys : List String
registration_keys =
    "id" ∷ "eventId" ∷ "raceId" ∷ "bib" ∷ "epc" ∷ "person" ∷ "reserve" ∷ "issued" ∷ "status"
    ∷ "transferredTo" ∷ "hasTimingEvidence" ∷ []

unfoldable pub parse_registration : Value → Result Registration
unfolding parse_optional_person parse_optional_string status_of exact_keys get string_value
parse_registration value = do
  obj ← or_fail (as_object value) invalid
  fail_if (not (exact_keys obj registration_keys)) invalid
  reserve ← or_fail (as_bool (get "reserve" obj)) invalid
  issued ← or_fail (as_bool (get "issued" obj)) invalid
  evidence ← or_fail (as_bool (get "hasTimingEvidence" obj)) invalid
  person ← parse_optional_person (get "person" obj)
  target ← parse_optional_string (get "transferredTo" obj)
  let row : Registration = record {
    id = string_value (get "id" obj);
    event_id = string_value (get "eventId" obj);
    race_id = string_value (get "raceId" obj);
    bib = string_value (get "bib" obj);
    epc = string_value (get "epc" obj);
    person = person;
    reserve = reserve;
    issued = issued;
    status = status_of (string_value (get "status" obj));
    transferred_to = target;
    has_timing_evidence = evidence;
  }
  validate_registration row
  ok row

-- Heads are UUIDs in strictly ascending order; `last` is the head before.
ascending : Option String → String → Bool
ascending none head = true
ascending (some last) head = is_lt (compare last head)

unfoldable pub parse_heads : Option String → List Value → Result (List String)
unfolding ascending
parse_heads last [] = ok []
parse_heads last (value ∷ rest) = do
  head ← or_fail (as_string value) invalid
  fail_if (not (uuid_pattern head) || not (ascending last head)) invalid
  heads ← parse_heads (some head) rest
  ok (head ∷ heads)

unfoldable pub parse_base : Value → Result Base
unfolding parse_heads exact_keys get string_value identifier_pattern
parse_base value = do
  obj ← or_fail (as_object value) invalid
  fail_if (not (exact_keys obj ("registrationId" ∷ "heads" ∷ []))) invalid
  let id = string_value (get "registrationId" obj)
  raw ← or_fail (as_array (get "heads" obj)) invalid
  fail_if (not (identifier_pattern id) || not (leb (item_count raw) 64)) invalid
  heads ← parse_heads none (items_list raw)
  ok (record { registration_id = id; heads = heads })

unfoldable pub parse_change : Value → Result Change
unfolding parse_registration identifier_pattern
parse_change value = do
  obj ← or_fail (as_object value) invalid
  fail_if (not (exact_keys obj ("registrationId" ∷ "before" ∷ "after" ∷ []))) invalid
  before ← parse_registration (get "before" obj)
  after ← parse_registration (get "after" obj)
  let id = string_value (get "registrationId" obj)
  fail_if (not (identifier_pattern id)) invalid
  ok (record { registration_id = id; before = before; after = after })
