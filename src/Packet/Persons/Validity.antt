-- ===== src/Packet/Persons/Validity.antt =====
-- Lemmas on the rows that the commands on issuing, statuses and persons
-- leave (internal/packetissuance/transitions.go).
use chrono_desk.Packet.Persons.{
  apply_change_race, apply_edit_person, apply_issue, apply_release_to_reserve, apply_replace_person,
  apply_set_dns, apply_undo_issue,
}
use chrono_desk.Packet.Validate.Parts.{IsValid}
use chrono_desk.Packet.Validate.{
  known_status, require_assigned, valid_optional_identifier, validate_optional_person,
}
use chrono_desk.Packet.Model.{Command, Registration, ok}
use chrono_desk.Prelude.{arith, ◌≡◌}

module _ (source : Registration) {after : Registration} (v : IsValid source) where
  pub apply_issue-IsValid : apply_issue source ≡ ok after → IsValid after
  unfolding apply_issue
  apply_issue-IsValid h = ground arith

  pub apply_release_to_reserve-IsValid : apply_release_to_reserve source ≡ ok after → IsValid after
  unfolding apply_release_to_reserve validate_optional_person valid_optional_identifier known_status
  apply_release_to_reserve-IsValid h = ground arith

module _ (source : Registration) (command : Command) {after : Registration}
    (v : IsValid source) where
  pub apply_undo_issue-IsValid : apply_undo_issue source command ≡ ok after → IsValid after
  unfolding apply_undo_issue
  apply_undo_issue-IsValid h = ground arith

  pub apply_set_dns-IsValid : apply_set_dns source command ≡ ok after → IsValid after
  unfolding apply_set_dns known_status
  apply_set_dns-IsValid h = ground arith

  pub apply_edit_person-IsValid : apply_edit_person source command ≡ ok after → IsValid after
  unfolding apply_edit_person validate_optional_person require_assigned
  apply_edit_person-IsValid h = ground arith

  pub apply_change_race-IsValid : apply_change_race source command ≡ ok after → IsValid after
  unfolding apply_change_race
  apply_change_race-IsValid h = ground arith

  pub apply_replace_person-IsValid : apply_replace_person source command ≡ ok after → IsValid after
  unfolding apply_replace_person validate_optional_person known_status
  apply_replace_person-IsValid h = ground arith
