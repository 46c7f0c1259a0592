-- ===== src/Packet/Persons.antt =====
-- The cases of `Apply` that issue packets, set statuses and edit persons
-- (internal/packetissuance/transitions.go).
pub mod Scope
pub mod Validity
use chrono_desk.Packet.Validate.{require_assigned, require_editable, validate_person}
use chrono_desk.Text.Chars.{identifier_pattern, valid_reason}
use chrono_desk.Prelude.{
  Bool, List, Option, String, [], false, if◌then◌else◌, none, not, some, true, ◌&&◌, ◌||◌, ◌∷◌,
}
use chrono_desk.Prelude.Classes.{string_eq, bool_eq, option_eq, ◌==◌}
use chrono_desk.Packet.Model.{
  registration_eq, status_eq, Command, Person, Registration, Result, dns, err, fail_if,
  invalid_command, invalid_person, invalid_target, ok, or_fail, person_identity_reused,
  race_change_requires_unnumbered, reason_required, registered, status_review_required,
  timing_review_required, ◌>>=◌, ◌>>◌,
}

unfoldable pub apply_issue : Registration → Result Registration
apply_issue source = do _ ← require_assigned source; ok (record source { issued = true })

unfoldable pub apply_undo_issue : Registration → Command → Result Registration
apply_undo_issue source command = do
  fail_if (not (valid_reason command.reason)) reason_required
  ok (record source { issued = false })

unfoldable pub apply_set_dns : Registration → Command → Result Registration
apply_set_dns source command = do
  value ← or_fail command.value invalid_command
  require_editable source
  _ ← require_assigned source
  ok (record source { status = if value then dns else registered })

unfoldable pub apply_release_to_reserve : Registration → Result Registration
apply_release_to_reserve source = do
  fail_if source.has_timing_evidence timing_review_required
  fail_if (not (source.status == registered) && not (source.status == dns)) status_review_required
  _ ← require_assigned source
  ok (record source {
    person = none;
    reserve = true;
    issued = false;
    status = registered;
    transferred_to = none;
  })

-- One round of the loop over `command.Fields`.
unfoldable pub set_field : Person → String → String → Result Person
set_field person field value =
    if field == "firstName"
    then ok (record person { first_name = value })
    else if field == "lastName"
    then ok (record person { last_name = value })
    else if field == "birthDate"
    then ok (record person { birth_date = value })
    else if field == "gender"
    then ok (record person { gender = value })
    else if field == "team"
    then ok (record person { team = value })
    else if field == "city"
    then ok (record person { city = value })
    else err invalid_person

-- The map is a list of its entries in the order that the loop meets them.
unfoldable pub set_fields : Person → List (String × String) → Result Person
unfolding set_field
set_fields person [] = ok person
set_fields person ((field, value) ∷ rest) = do
  next ← set_field person field value
  set_fields next rest

unfoldable pub apply_edit_person : Registration → Command → Result Registration
unfolding set_fields
apply_edit_person source command = do
  require_editable source
  old ← require_assigned source
  person ← set_fields old command.fields
  validate_person person
  ok (record source { person = some person })

unfoldable pub apply_change_race : Registration → Command → Result Registration
apply_change_race source command = do
  require_editable source
  _ ← require_assigned source
  fail_if (not (source.bib == "") || not (source.epc == "") || source.issued)
      race_change_requires_unnumbered
  fail_if (not (identifier_pattern command.race_id) || command.race_id == source.race_id)
      invalid_target
  ok (record source { race_id = command.race_id })

unfoldable pub same_person : Option Person → Person → Bool
same_person none new = false
same_person (some old) new = old.id == new.id

unfoldable pub apply_replace_person : Registration → Command → Result Registration
unfolding same_person
apply_replace_person source command = do
  require_editable source
  person ← or_fail command.person invalid_command
  issued ← or_fail command.issue_packet invalid_command
  validate_person person
  fail_if (same_person source.person person) person_identity_reused
  ok (record source { person = some person; reserve = false; issued = issued; status = registered })
