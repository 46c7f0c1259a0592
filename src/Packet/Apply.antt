-- ===== src/Packet/Apply.antt =====
-- `Apply` of internal/packetissuance/transitions.go: what a command does to the registrations. Each
-- case of its switch is a function of Numbers, Persons or Moves.
pub mod Cases
pub mod Validity
pub mod Scope
use chrono_desk.Packet.Moves.{apply_move}
use chrono_desk.Packet.Persons.{
  apply_change_race, apply_edit_person, apply_issue, apply_release_to_reserve, apply_replace_person,
  apply_set_dns, apply_undo_issue,
}
use chrono_desk.Packet.Numbers.{
  apply_assign_number, apply_clear_number, apply_create_registration, apply_return_to_reserve,
  apply_unassign_number,
}
use chrono_desk.Packet.Rows.{changes_of, find_row, index_rows}
use chrono_desk.Prelude.{List, []}
use chrono_desk.Prelude.Classes.{string_eq, bool_eq, option_eq}
use chrono_desk.Packet.Model.{
  registration_eq, status_eq, Change, Command, CommandType, Registration, Result, assign_number,
  assign_reserve, change_race, clear_number, create_registration, edit_person, err, invalid_command,
  issue, move_race, move_to_reserve, ok, or_fail, registration_not_found, release_to_reserve,
  replace_person, return_to_reserve, set_dns, unassign_number, undo_issue, ◌>>=◌,
}

-- The common end of the cases that change one row.
unfoldable pub one_row : Registration → Result Registration → Result (List Change)
unfolding changes_of
one_row source result = do after ← result; ok (changes_of source after)

-- The switch on `command.Type`.
unfoldable pub transition :
    CommandType
    → List Registration
    → List Registration
    → Registration
    → Command
    → Result (List Change)
unfolding one_row
transition assign_number records rows source command =
    one_row source (apply_assign_number records source command)
transition create_registration records rows source command =
    one_row source (apply_create_registration records source command)
transition return_to_reserve records rows source command =
    apply_return_to_reserve rows source command
transition clear_number records rows source command = one_row source (apply_clear_number source)
transition unassign_number records rows source command =
    one_row source (apply_unassign_number source)
transition issue records rows source command = one_row source (apply_issue source)
transition undo_issue records rows source command = one_row source (apply_undo_issue source command)
transition set_dns records rows source command = one_row source (apply_set_dns source command)
transition release_to_reserve records rows source command =
    one_row source (apply_release_to_reserve source)
transition edit_person records rows source command =
    one_row source (apply_edit_person source command)
transition change_race records rows source command =
    one_row source (apply_change_race source command)
transition replace_person records rows source command =
    one_row source (apply_replace_person source command)
transition move_race records rows source command = apply_move rows source command
transition move_to_reserve records rows source command = apply_move rows source command
transition assign_reserve records rows source command = apply_move rows source command
transition _ records rows source command = err invalid_command

unfoldable pub apply : List Registration → Command → Result (List Change)
unfolding index_rows transition
apply records command = do
  rows ← index_rows [] records
  source ← or_fail (find_row command.registration_id rows) registration_not_found
  transition command.type records rows source command
