-- ===== src/Packet/Apply/Validity.antt =====
-- Proofs on the rows that `Apply` (internal/packetissuance/transitions.go) returns.
use chrono_desk.Packet.Apply.Cases.{one_row-All}
use chrono_desk.Packet.Rows.Lookup.{find_row-All, index_rows-IsValid}
use chrono_desk.Packet.Validate.{validate_registration}
use chrono_desk.Packet.Moves.Validity.{apply_move-IsValid}
use chrono_desk.Packet.Persons.Validity.{
  apply_change_race-IsValid, apply_edit_person-IsValid, apply_issue-IsValid,
  apply_release_to_reserve-IsValid, apply_replace_person-IsValid, apply_set_dns-IsValid,
  apply_undo_issue-IsValid,
}
use chrono_desk.Packet.Numbers.Validity.{
  apply_assign_number-IsValid, apply_clear_number-IsValid, apply_create_registration-IsValid,
  apply_return_to_reserve-IsValid, apply_unassign_number-IsValid,
}
use chrono_desk.Packet.Validate.Parts.{IsValid, IsValidChange, validate_registration-IsValid}
use chrono_desk.Packet.Apply.{apply, transition}
use chrono_desk.Packet.Rows.{find_row, index_rows}
use chrono_desk.Prelude.{All, List, [], some, ◌≡◌, All-map}
use chrono_desk.Packet.Model.{
  registration_eq, assign_number, create_registration, Change, Command, CommandType, Registration,
  assign_reserve, change_race, clear_number, correct_move, edit_person, issue, move_race,
  move_to_reserve, ok, other_type, release_to_reserve, replace_person, resolve_conflict,
  return_to_reserve, set_dns, unassign_number, undo_issue, >>=-eq-ok, or_fail, or_fail-eq-ok,
  registration_not_found,
}

transition-IsValid :
    (type : CommandType) (records rows : List Registration) (source : Registration)
    (command : Command) {changes : List Change}
    → IsValid source
    → ((target : Registration) → find_row command.target_id rows ≡ some target → IsValid target)
    → transition type records rows source command ≡ ok changes
    → All IsValidChange changes
unfolding transition
transition-IsValid assign_number records rows source command v w h =
    one_row-All IsValidChange source _
      (λ a e. (v, apply_assign_number-IsValid records source command v e)) h
transition-IsValid create_registration records rows source command v w h =
    one_row-All IsValidChange source _
      (λ a e. (v, apply_create_registration-IsValid records source command v e)) h
transition-IsValid return_to_reserve records rows source command v w h =
    apply_return_to_reserve-IsValid rows source command v w h
transition-IsValid clear_number records rows source command v w h =
    one_row-All IsValidChange source _ (λ a e. (v, apply_clear_number-IsValid source v e)) h
transition-IsValid unassign_number records rows source command v w h =
    one_row-All IsValidChange source _ (λ a e. (v, apply_unassign_number-IsValid source v e)) h
transition-IsValid issue records rows source command v w h =
    one_row-All IsValidChange source _ (λ a e. (v, apply_issue-IsValid source v e)) h
transition-IsValid undo_issue records rows source command v w h =
    one_row-All IsValidChange source _ (λ a e. (v, apply_undo_issue-IsValid source command v e)) h
transition-IsValid set_dns records rows source command v w h =
    one_row-All IsValidChange source _ (λ a e. (v, apply_set_dns-IsValid source command v e)) h
transition-IsValid release_to_reserve records rows source command v w h =
    one_row-All IsValidChange source _ (λ a e. (v, apply_release_to_reserve-IsValid source v e)) h
transition-IsValid edit_person records rows source command v w h =
    one_row-All IsValidChange source _ (λ a e. (v, apply_edit_person-IsValid source command v e)) h
transition-IsValid change_race records rows source command v w h =
    one_row-All IsValidChange source _ (λ a e. (v, apply_change_race-IsValid source command v e)) h
transition-IsValid replace_person records rows source command v w h =
    one_row-All IsValidChange source _ (λ a e. (v, apply_replace_person-IsValid source command v e))
      h
transition-IsValid move_race records rows source command v w h =
    apply_move-IsValid rows source command v w h
transition-IsValid move_to_reserve records rows source command v w h =
    apply_move-IsValid rows source command v w h
transition-IsValid assign_reserve records rows source command v w h =
    apply_move-IsValid rows source command v w h
transition-IsValid correct_move records rows source command v w h = cc
transition-IsValid resolve_conflict records rows source command v w h = cc
transition-IsValid (other_type s) records rows source command v w h = cc

-- Every row in a change that `Apply` returns, before and after, passes `ValidateRegistration`.
pub apply-IsValid :
    (records : List Registration) (command : Command) {changes : List Change}
    → apply records command ≡ ok changes
    → All
        (λ c. (validate_registration c.before ≡ ok tt) × (validate_registration c.after ≡ ok tt))
        changes
unfolding apply
apply-IsValid records command h =
    let (rows, e0, h0) = >>=-eq-ok (index_rows [] records) _ h in
    let (source, e1, h1) =
      >>=-eq-ok (or_fail (find_row command.registration_id rows) registration_not_found) _ h0 in
    let valid = index_rows-IsValid [] records tt e0 in
    let found = or_fail-eq-ok (find_row command.registration_id rows) registration_not_found e1 in
    All-map _ _ passes _ (
      transition-IsValid command.type records rows source command
        (find_row-All IsValid command.registration_id rows valid found)
        (λ target. find_row-All IsValid command.target_id rows valid) h1)
  where
    passes :
        (c : Change)
        → IsValidChange c
        → (validate_registration c.before ≡ ok tt) × (validate_registration c.after ≡ ok tt)
    passes c (v, w) =
        (validate_registration-IsValid c.before v, validate_registration-IsValid c.after w)
