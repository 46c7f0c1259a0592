-- ===== src/Packet/Validate.antt =====
-- The validation of rows and persons in internal/packetissuance/transitions.go.
pub mod Parts
pub mod Blank
use chrono_desk.Packet.Model.{
  status_eq, registration_eq, Command, Person, Registration, Result, Status, dns, err, fail_if,
  invalid_command, invalid_person, invalid_records, missing_person, no_command, ok, or_fail,
  other_status, registered, reserve_slot, status_review_required, timing_review_required,
  transfer_review_required, ◌>>◌,
}
use chrono_desk.Text.Date.{valid_date}
use chrono_desk.Text.Chars.{identifier_pattern, registration_id_pattern, valid_reason, valid_text}
use Prim.Native.String.{◌++◌}
use chrono_desk.Prelude.{String, Bool, true, false, not, ◌&&◌, ◌||◌, Option, is_some, none, some}
use chrono_desk.Prelude.Classes.{nat_eq, list_eq, string_eq, bool_eq, option_eq, ◌==◌}

-- The birth date is optional.
unfoldable pub valid_birth_date : String → Bool
valid_birth_date s = s == "" || valid_date s

unfoldable pub validate_person : Person → Result (Unit {0})
unfolding valid_birth_date
validate_person person = do
  fail_if
      (not (identifier_pattern person.id)
        || not (valid_text person.first_name 160)
        || not (valid_text person.last_name 160)
        || not (valid_text person.birth_date 160)
        || not (valid_text person.gender 160)
        || not (valid_text person.team 160)
        || not (valid_text person.city 160))
      invalid_person
  fail_if
      (not (valid_reason (person.first_name ++ person.last_name))
        || (not (person.gender == "")
            && not (person.gender == "male")
            && not (person.gender == "female")))
      invalid_person
  fail_if (not (valid_birth_date person.birth_date)) invalid_person

unfoldable pub valid_optional_identifier : Option String → Bool
valid_optional_identifier none = true
valid_optional_identifier (some s) = identifier_pattern s

unfoldable pub validate_optional_person : Option Person → Result (Unit {0})
validate_optional_person none = ok tt
validate_optional_person (some p) = validate_person p

unfoldable pub known_status : Status → Bool
known_status (other_status s) = false
known_status _ = true

unfoldable pub validate_registration : Registration → Result (Unit {0})
validate_registration row = do
  fail_if
      (not (identifier_pattern row.id)
        || not (identifier_pattern row.event_id)
        || not (identifier_pattern row.race_id)
        || not (valid_optional_identifier row.transferred_to)
        || not (known_status row.status))
      invalid_records
  fail_if (row.reserve && is_some row.person) invalid_records
  validate_optional_person row.person

-- A virtual image only: a receiver proves that no row has its id.
unfoldable pub empty_registration : Command → Result Registration
empty_registration command = do
  fail_if
      (not (registration_id_pattern command.registration_id)
        || not (identifier_pattern command.event_id)
        || not (identifier_pattern command.race_id))
      invalid_command
  ok (record {
    id = command.registration_id;
    event_id = command.event_id;
    race_id = command.race_id;
    bib = "";
    epc = "";
    person = none;
    reserve = false;
    issued = false;
    status = registered;
    transferred_to = none;
    has_timing_evidence = false;
  })

unfoldable pub empty_reserve : Command → Registration → Result Registration
empty_reserve command source = empty_registration (record no_command {
  registration_id = command.target_id;
  event_id = source.event_id;
  race_id = command.race_id;
})

unfoldable pub equals_ok : Registration → Result Registration → Bool
equals_ok row (ok empty) = row == empty
equals_ok row (err e) = false

unfoldable pub is_virtual_registration : Registration → Bool
unfolding equals_ok empty_registration
is_virtual_registration row = equals_ok row (
    empty_registration (record no_command {
      registration_id = row.id;
      event_id = row.event_id;
      race_id = row.race_id;
    }))

unfoldable pub require_editable : Registration → Result (Unit {0})
require_editable row = do
  fail_if row.has_timing_evidence timing_review_required
  fail_if (not (row.status == registered) && not (row.status == dns)) status_review_required
  fail_if (is_some row.transferred_to) transfer_review_required

-- The person of a row that `requireAssigned` lets pass.
unfoldable pub require_assigned : Registration → Result Person
require_assigned row = do fail_if row.reserve reserve_slot; or_fail row.person missing_person
