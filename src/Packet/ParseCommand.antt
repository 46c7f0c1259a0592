-- ===== src/Packet/ParseCommand.antt =====
-- `parseCommand` of internal/packetissuance/validation.go: the keys and the shape of each command.
use chrono_desk.Packet.Canonical.{write_canonical}
use chrono_desk.Text.Decimal.{valid_assigned_bib}
use chrono_desk.Packet.Operation.{parse_person}
use chrono_desk.Text.Chars.{identifier_pattern, uuid_pattern, valid_reason}
use chrono_desk.Prelude.{Bool, List, String, [], if◌then◌else◌, not, some, ◌||◌, ◌∷◌}
use chrono_desk.Prelude.Classes.{string_eq, nat_eq, ◌==◌}
use chrono_desk.Packet.Json.{
  object, field, get, Fields, Value, as_array, as_bool, as_object, as_string, exact_keys,
  field_count, items_list, string_value, end,
}
use chrono_desk.Packet.Model.{
  assign_number, create_registration, return_to_reserve, clear_number, unassign_number, issue,
  undo_issue, set_dns, release_to_reserve, edit_person, change_race, replace_person, move_race,
  move_to_reserve, assign_reserve, correct_move, resolve_conflict, other_type, ok, Command,
  CommandType, Person, Result, err, fail_if, invalid_operation_command, no_command, or_fail, ◌>>=◌,
  ◌>>◌,
}

unfoldable pub type_of : String → CommandType
type_of s =
    if s == "return_to_reserve"
    then return_to_reserve
    else if s == "assign_number"
    then assign_number
    else if s == "create_registration"
    then create_registration
    else if s == "issue"
    then issue
    else if s == "unassign_number"
    then unassign_number
    else if s == "clear_number"
    then clear_number
    else if s == "undo_issue"
    then undo_issue
    else if s == "set_dns"
    then set_dns
    else if s == "release_to_reserve"
    then release_to_reserve
    else if s == "edit_person"
    then edit_person
    else if s == "change_race"
    then change_race
    else if s == "replace_person"
    then replace_person
    else if s == "move_race"
    then move_race
    else if s == "move_to_reserve"
    then move_to_reserve
    else if s == "assign_reserve"
    then assign_reserve
    else if s == "correct_move"
    then correct_move
    else if s == "resolve_conflict"
    then resolve_conflict
    else other_type s

-- `!exactKeys(obj, keys...)`
require_keys : Fields → List String → Result (Unit {0})
unfolding exact_keys
require_keys obj keys = fail_if (not (exact_keys obj keys)) invalid_operation_command

require_identifier : String → Result (Unit {0})
unfolding identifier_pattern
require_identifier id = fail_if (not (identifier_pattern id)) invalid_operation_command

get_bool : String → Fields → Result Bool
unfolding get
get_bool key obj = or_fail (as_bool (get key obj)) invalid_operation_command

get_string : String → Fields → String
unfolding get string_value
get_string key obj = string_value (get key obj)

-- Every error of `parsePerson` is reported as an invalid command.
command_person : Value → Result Person
unfolding parse_person
command_person value = elim (parse_person value) [
  | ok p ↦ ok p
  | err e ↦ err invalid_operation_command
]

parse_return_to_reserve : Fields → Command → Result Command
unfolding require_keys require_identifier get_string valid_assigned_bib
parse_return_to_reserve obj c = do
  require_identifier c.registration_id
  require_keys obj ("type" ∷ "registrationId" ∷ "targetId" ∷ "bib" ∷ "raceId" ∷ [])
  require_identifier (get_string "targetId" obj)
  fail_if (not (valid_assigned_bib (get_string "bib" obj))) invalid_operation_command
  require_identifier (get_string "raceId" obj)
  ok (record c {
    target_id = get_string "targetId" obj;
    bib = get_string "bib" obj;
    race_id = get_string "raceId" obj;
  })

parse_assign_number : Fields → Command → Result Command
unfolding require_keys require_identifier get_bool
parse_assign_number obj c = do
  require_identifier c.registration_id
  require_keys obj ("type" ∷ "registrationId" ∷ "bib" ∷ "issuePacket" ∷ [])
  bib ← or_fail (as_string (get "bib" obj)) invalid_operation_command
  issued ← get_bool "issuePacket" obj
  ok (record c { bib = bib; issue_packet = some issued })

parse_create_registration : Fields → Command → Result Command
unfolding require_keys require_identifier get_bool get_string command_person
parse_create_registration obj c = do
  require_identifier c.registration_id
  require_keys obj
      ("type" ∷ "registrationId" ∷ "bib" ∷ "issuePacket" ∷ "eventId" ∷ "raceId" ∷ "person" ∷ [])
  bib ← or_fail (as_string (get "bib" obj)) invalid_operation_command
  issued ← get_bool "issuePacket" obj
  person ← command_person (get "person" obj)
  ok (record c {
    bib = bib;
    issue_packet = some issued;
    event_id = get_string "eventId" obj;
    race_id = get_string "raceId" obj;
    person = some person;
  })

parse_bare : Fields → Command → Result Command
unfolding require_keys require_identifier
parse_bare obj c = do
  require_identifier c.registration_id
  require_keys obj ("type" ∷ "registrationId" ∷ [])
  ok c

parse_undo_issue : Fields → Command → Result Command
unfolding require_keys require_identifier get_string valid_reason
parse_undo_issue obj c = do
  require_identifier c.registration_id
  require_keys obj ("type" ∷ "registrationId" ∷ "reason" ∷ [])
  fail_if (not (valid_reason (get_string "reason" obj))) invalid_operation_command
  ok (record c { reason = get_string "reason" obj })

parse_set_dns : Fields → Command → Result Command
unfolding require_keys require_identifier get_bool
parse_set_dns obj c = do
  require_identifier c.registration_id
  require_keys obj ("type" ∷ "registrationId" ∷ "value" ∷ [])
  value ← get_bool "value" obj
  ok (record c { value = some value })

unfoldable pub person_field : String → Bool
person_field key =
    key == "firstName"
    || key == "lastName"
    || key == "birthDate"
    || key == "gender"
    || key == "team"
    || key == "city"

parse_fields : Fields → Result (List (String × String))
unfolding person_field
parse_fields end = ok []
parse_fields (field key raw rest) = do
  fail_if (not (person_field key)) invalid_operation_command
  value ← or_fail (as_string raw) invalid_operation_command
  others ← parse_fields rest
  ok ((key, value) ∷ others)

parse_edit_person : Fields → Command → Result Command
unfolding require_keys require_identifier parse_fields
parse_edit_person obj c = do
  require_identifier c.registration_id
  require_keys obj ("type" ∷ "registrationId" ∷ "fields" ∷ [])
  raw ← or_fail (as_object (get "fields" obj)) invalid_operation_command
  fail_if (field_count raw == 0) invalid_operation_command
  fields ← parse_fields raw
  ok (record c { fields = fields })

parse_change_race : Fields → Command → Result Command
unfolding require_keys require_identifier get_string
parse_change_race obj c = do
  require_keys obj ("type" ∷ "registrationId" ∷ "raceId" ∷ [])
  require_identifier c.registration_id
  require_identifier (get_string "raceId" obj)
  ok (record c { race_id = get_string "raceId" obj })

parse_replace_person : Fields → Command → Result Command
unfolding require_keys require_identifier get_bool command_person
parse_replace_person obj c = do
  require_identifier c.registration_id
  require_keys obj ("type" ∷ "registrationId" ∷ "person" ∷ "issuePacket" ∷ [])
  person ← command_person (get "person" obj)
  issued ← get_bool "issuePacket" obj
  ok (record c { person = some person; issue_packet = some issued })

parse_move : Fields → Command → Result Command
unfolding require_keys require_identifier get_bool get_string
parse_move obj c = do
  require_identifier c.registration_id
  require_keys obj ("type" ∷ "registrationId" ∷ "targetId" ∷ "issuePacket" ∷ [])
  require_identifier (get_string "targetId" obj)
  issued ← get_bool "issuePacket" obj
  ok (record c { target_id = get_string "targetId" obj; issue_packet = some issued })

parse_assign_reserve : Fields → Command → Result Command
unfolding require_keys require_identifier get_bool get_string
parse_assign_reserve obj c = do
  require_identifier c.registration_id
  return_source ← get_bool "returnSource" obj
  require_keys obj ("type" ∷ "registrationId" ∷ "targetId" ∷ "issuePacket" ∷ "returnSource" ∷ [])
  require_identifier (get_string "targetId" obj)
  issued ← get_bool "issuePacket" obj
  ok (record c {
    return_source = some return_source;
    target_id = get_string "targetId" obj;
    issue_packet = some issued;
  })

parse_correct_move : Fields → Command → Result Command
unfolding require_keys get_string uuid_pattern valid_reason
parse_correct_move obj c = do
  require_keys obj ("type" ∷ "operationId" ∷ "reason" ∷ [])
  fail_if
      (not (uuid_pattern (get_string "operationId" obj))
        || not (valid_reason (get_string "reason" obj)))
      invalid_operation_command
  ok (record c {
    registration_id = "";
    operation_id = get_string "operationId" obj;
    reason = get_string "reason" obj;
  })

-- `keep` is empty or repeats the one input.
parse_keep : String → List Value → Result (List String)
parse_keep input [] = ok []
parse_keep input (value ∷ []) = do
  kept ← or_fail (as_string value) invalid_operation_command
  fail_if (not (kept == input)) invalid_operation_command
  ok (kept ∷ [])
parse_keep input _ = err invalid_operation_command

parse_input : List Value → Result String
unfolding uuid_pattern
parse_input (value ∷ []) = do
  input ← or_fail (as_string value) invalid_operation_command
  fail_if (not (uuid_pattern input)) invalid_operation_command
  ok input
parse_input _ = err invalid_operation_command

parse_resolve_conflict : Fields → Bool → Command → Result Command
unfolding require_keys get_string parse_keep parse_input valid_reason
parse_resolve_conflict obj allow_resolution c = do
  fail_if (not allow_resolution) invalid_operation_command
  require_keys obj ("type" ∷ "inputs" ∷ "keep" ∷ "reason" ∷ [])
  inputs ← or_fail (as_array (get "inputs" obj)) invalid_operation_command
  keep ← or_fail (as_array (get "keep" obj)) invalid_operation_command
  fail_if (not (valid_reason (get_string "reason" obj))) invalid_operation_command
  input ← parse_input (items_list inputs)
  kept ← parse_keep input (items_list keep)
  ok (record c { reason = get_string "reason" obj; inputs = input ∷ []; keep = kept })

-- The switch on the command's type.
parse_by_type : CommandType → Fields → Bool → Command → Result Command
unfolding parse_return_to_reserve parse_assign_number parse_create_registration parse_bare
    parse_undo_issue parse_set_dns parse_edit_person parse_change_race parse_replace_person
    parse_move parse_assign_reserve parse_correct_move parse_resolve_conflict
parse_by_type return_to_reserve obj allow c = parse_return_to_reserve obj c
parse_by_type assign_number obj allow c = parse_assign_number obj c
parse_by_type create_registration obj allow c = parse_create_registration obj c
parse_by_type issue obj allow c = parse_bare obj c
parse_by_type unassign_number obj allow c = parse_bare obj c
parse_by_type clear_number obj allow c = parse_bare obj c
parse_by_type undo_issue obj allow c = parse_undo_issue obj c
parse_by_type set_dns obj allow c = parse_set_dns obj c
parse_by_type release_to_reserve obj allow c = parse_bare obj c
parse_by_type edit_person obj allow c = parse_edit_person obj c
parse_by_type change_race obj allow c = parse_change_race obj c
parse_by_type replace_person obj allow c = parse_replace_person obj c
parse_by_type move_race obj allow c = parse_move obj c
parse_by_type move_to_reserve obj allow c = parse_move obj c
parse_by_type assign_reserve obj allow c = parse_assign_reserve obj c
parse_by_type correct_move obj allow c = parse_correct_move obj c
parse_by_type resolve_conflict obj allow c = parse_resolve_conflict obj allow c
parse_by_type (other_type s) obj allow c = err invalid_operation_command

unfoldable pub parse_command : Value → Bool → Result Command
unfolding parse_by_type type_of write_canonical get_string
parse_command value allow_resolution = do
  obj ← or_fail (as_object value) invalid_operation_command
  _ ← or_fail (write_canonical (object obj)) invalid_operation_command
  let type = type_of (get_string "type" obj)
  let c : Command = record no_command {
    type = type;
    registration_id = get_string "registrationId" obj;
  }
  parse_by_type type obj allow_resolution c
