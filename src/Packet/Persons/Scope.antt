-- ===== src/Packet/Persons/Scope.antt =====
-- Lemmas on the fields that the commands on issuing, statuses and persons
-- change (internal/packetissuance/transitions.go).
use chrono_desk.Packet.Fields.Kept.{KeptFields-self}
use chrono_desk.Packet.Validate.{require_editable}
use chrono_desk.Packet.Persons.{
  apply_change_race, apply_edit_person, apply_issue, apply_release_to_reserve, apply_replace_person,
  apply_set_dns, apply_undo_issue,
}
use chrono_desk.Packet.Fields.{fields_agree}
use chrono_desk.Prelude.{arith, true, ◌≡◌, false}
use chrono_desk.Prelude.Classes.{string_eq, bool_eq, nat_eq}
use chrono_desk.Packet.Model.{
  issue, undo_issue, set_dns, release_to_reserve, edit_person, change_race, replace_person, Command,
  Registration, ok,
}
use chrono_desk.Packet.Rows.{change}

module _ (source : Registration) {after : Registration} where
  pub apply_issue-fields_agree :
      apply_issue source ≡ ok after → fields_agree issue false (change source after) ≡ true
  unfolding apply_issue fields_agree
  apply_issue-fields_agree h = ground (arith, KeptFields-self source)

  pub apply_issue-protects :
      apply_issue source ≡ ok after
      → source.has_timing_evidence ≡ true
      → after ≡ record source { issued = after.issued }
  unfolding apply_issue require_editable
  apply_issue-protects h e = ground arith

  pub apply_undo_issue-fields_agree :
      (command : Command)
      → apply_undo_issue source command ≡ ok after
      → fields_agree undo_issue false (change source after) ≡ true
  unfolding apply_undo_issue fields_agree
  apply_undo_issue-fields_agree command h = ground (arith, KeptFields-self source)

  pub apply_undo_issue-protects :
      (command : Command)
      → apply_undo_issue source command ≡ ok after
      → source.has_timing_evidence ≡ true
      → after ≡ record source { issued = after.issued }
  unfolding apply_undo_issue require_editable
  apply_undo_issue-protects command h e = ground arith

  pub apply_set_dns-fields_agree :
      (command : Command)
      → apply_set_dns source command ≡ ok after
      → fields_agree set_dns false (change source after) ≡ true
  unfolding apply_set_dns fields_agree
  apply_set_dns-fields_agree command h = ground (arith, KeptFields-self source)

  pub apply_set_dns-protects :
      (command : Command)
      → apply_set_dns source command ≡ ok after
      → source.has_timing_evidence ≡ true
      → after ≡ record source { issued = after.issued }
  unfolding apply_set_dns require_editable
  apply_set_dns-protects command h e = ground arith

  pub apply_release_to_reserve-fields_agree :
      apply_release_to_reserve source ≡ ok after
      → fields_agree release_to_reserve false (change source after) ≡ true
  unfolding apply_release_to_reserve fields_agree
  apply_release_to_reserve-fields_agree h = ground (arith, KeptFields-self source)

  pub apply_release_to_reserve-protects :
      apply_release_to_reserve source ≡ ok after
      → source.has_timing_evidence ≡ true
      → after ≡ record source { issued = after.issued }
  unfolding apply_release_to_reserve require_editable
  apply_release_to_reserve-protects h e = ground arith

  pub apply_edit_person-fields_agree :
      (command : Command)
      → apply_edit_person source command ≡ ok after
      → fields_agree edit_person false (change source after) ≡ true
  unfolding apply_edit_person fields_agree
  apply_edit_person-fields_agree command h = ground (arith, KeptFields-self source)

  pub apply_edit_person-protects :
      (command : Command)
      → apply_edit_person source command ≡ ok after
      → source.has_timing_evidence ≡ true
      → after ≡ record source { issued = after.issued }
  unfolding apply_edit_person require_editable
  apply_edit_person-protects command h e = ground arith

  pub apply_change_race-fields_agree :
      (command : Command)
      → apply_change_race source command ≡ ok after
      → fields_agree change_race false (change source after) ≡ true
  unfolding apply_change_race fields_agree
  apply_change_race-fields_agree command h = ground (arith, KeptFields-self source)

  pub apply_change_race-protects :
      (command : Command)
      → apply_change_race source command ≡ ok after
      → source.has_timing_evidence ≡ true
      → after ≡ record source { issued = after.issued }
  unfolding apply_change_race require_editable
  apply_change_race-protects command h e = ground arith

  pub apply_replace_person-fields_agree :
      (command : Command)
      → apply_replace_person source command ≡ ok after
      → fields_agree replace_person false (change source after) ≡ true
  unfolding apply_replace_person fields_agree
  apply_replace_person-fields_agree command h = ground (arith, KeptFields-self source)

  pub apply_replace_person-protects :
      (command : Command)
      → apply_replace_person source command ≡ ok after
      → source.has_timing_evidence ≡ true
      → after ≡ record source { issued = after.issued }
  unfolding apply_replace_person require_editable
  apply_replace_person-protects command h e = ground arith
