-- ===== src/Packet/Numbers.antt =====
-- The cases of `Apply` that give and take numbers (internal/packetissuance/transitions.go). A local
-- copy that a case mutates is a new record.
pub mod Outcome
pub mod Scope
pub mod Validity
use chrono_desk.Packet.Rows.{change, find_row}
use chrono_desk.Packet.Validate.{
  empty_registration, empty_reserve, require_assigned, require_editable, validate_person,
}
use chrono_desk.Text.Decimal.{valid_assigned_bib}
use chrono_desk.Prelude.{
  Bool, List, Option, String, [], any, false, if◌then◌else◌, none, not, some, true, ◌&&◌, ◌||◌, ◌∷◌,
}
use chrono_desk.Prelude.Classes.{string_eq, bool_eq, option_eq, ◌==◌}
use chrono_desk.Packet.Model.{
  registration_eq, status_eq, Change, Command, Registration, Result, err, fail_if, invalid_bib,
  invalid_person, invalid_target, number_already_assigned, number_occupied, ok, or_fail,
  registration_already_exists, ◌>>=◌, ◌>>◌,
}

unfoldable pub number_occupied_in : List Registration → Registration → String → Bool
number_occupied_in records source bib =
    any (λ row. row.event_id == source.event_id && not (row.id == source.id) && row.bib == bib)
      records

-- The number part of `assign_number` and `create_registration`.
unfoldable pub write_number :
    List Registration → Registration → Registration → Command → Result Registration
unfolding number_occupied_in
write_number records source after command = do
  fail_if (not (valid_assigned_bib command.bib)) invalid_bib
  issued ← or_fail command.issue_packet invalid_bib
  fail_if (number_occupied_in records source command.bib) number_occupied
  ok (record after { bib = command.bib; issued = issued })

unfoldable pub apply_assign_number :
    List Registration → Registration → Command → Result Registration
unfolding write_number
apply_assign_number records source command = do
  require_editable source
  _ ← require_assigned source
  fail_if (not (source.bib == "") || source.issued) number_already_assigned
  write_number records source source command

unfoldable pub leaves_number_empty : Command → Bool
leaves_number_empty command = command.bib == "" && command.issue_packet == some false

unfoldable pub apply_create_registration :
    List Registration → Registration → Command → Result Registration
unfolding write_number leaves_number_empty
apply_create_registration records source command = do
  require_editable source
  empty ← empty_registration command
  fail_if (not (source == empty)) registration_already_exists
  person ← or_fail command.person invalid_person
  validate_person person
  let after = record source { person = some person }
  if leaves_number_empty command then ok after else write_number records source after command

-- The target is a virtual row: it must equal the empty reserve image.
unfoldable pub reserve_target :
    Option Registration → Result Registration → Registration → Result Registration
reserve_target none empty source = err invalid_target
reserve_target (some target) (err e) source = err invalid_target
reserve_target (some target) (ok empty) source =
    if target.id == source.id || not (target == empty) then err invalid_target else ok target

unfoldable pub apply_return_to_reserve :
    List Registration → Registration → Command → Result (List Change)
unfolding reserve_target
apply_return_to_reserve rows source command = do
  require_editable source
  _ ← require_assigned source
  fail_if
      (not (valid_assigned_bib command.bib)
        || (not (source.bib == command.bib) && not (source.bib == "" && not (source.epc == ""))))
      invalid_bib
  target ← reserve_target (find_row command.target_id rows) (empty_reserve command source) source
  ok (
      change source (record source { bib = ""; epc = ""; issued = false })
      ∷ change target (record target { bib = command.bib; epc = source.epc; reserve = true })
      ∷ [])

unfoldable pub apply_clear_number : Registration → Result Registration
apply_clear_number source = do
  require_editable source
  _ ← require_assigned source
  ok (record source { bib = ""; epc = ""; issued = false })

unfoldable pub apply_unassign_number : Registration → Result Registration
apply_unassign_number source = do
  require_editable source
  _ ← require_assigned source
  ok (record source { bib = ""; issued = false })
