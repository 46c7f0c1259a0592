-- ===== src/Packet/Moves.antt =====
-- The cases of `Apply` that move a person to a reserve row (internal/packetissuance/transitions.go).
pub mod Outcome
pub mod Replay
pub mod Scope
pub mod Validity
use chrono_desk.Packet.Rows.{change, find_row}
use chrono_desk.Packet.Validate.{require_assigned, require_editable}
use chrono_desk.Prelude.{
  Bool, List, [], false, if◌then◌else◌, is_some, none, not, some, true, ◌&&◌, ◌||◌, ◌∷◌,
}
use chrono_desk.Prelude.Classes.{string_eq, bool_eq, option_eq, ◌==◌}
use chrono_desk.Packet.Model.{
  registration_eq, status_eq, Change, Command, CommandType, Registration, Result, assign_reserve,
  dns, fail_if, invalid_bib, invalid_command, invalid_target, move_race, move_to_reserve, ok,
  or_fail, registered, target_not_available, ◌>>=◌, ◌>>◌,
}

abbrev pub is_move_race : CommandType → Bool
is_move_race move_race = true
is_move_race _ = false

abbrev pub is_assign_reserve : CommandType → Bool
is_assign_reserve assign_reserve = true
is_assign_reserve _ = false

-- The source row after a move of each kind.
unfoldable pub vacate : CommandType → Registration → Registration → Command → Result Registration
vacate move_to_reserve source target command = ok (record source {
  person = none;
  reserve = true;
  issued = false;
  status = registered;
  transferred_to = none;
})
vacate assign_reserve source target command = do
  return_source ← or_fail command.return_source invalid_command
  fail_if (return_source && source.bib == "") invalid_bib
  ok (record source {
    bib = if return_source then source.bib else "";
    epc = if return_source then source.epc else "";
    person = none;
    reserve = return_source;
    issued = false;
    status = registered;
    transferred_to = none;
  })
vacate _ source target command =
    ok (record source { status = dns; transferred_to = some target.id })

unfoldable pub apply_move : List Registration → Registration → Command → Result (List Change)
unfolding vacate
apply_move rows source command = do
  require_editable source
  _ ← require_assigned source
  target ← or_fail (find_row command.target_id rows) invalid_target
  issued ← or_fail command.issue_packet invalid_target
  fail_if
      (command.target_id == source.id
        || not (target.event_id == source.event_id)
        || (is_move_race command.type && target.race_id == source.race_id))
      invalid_target
  fail_if (is_assign_reserve command.type && target.bib == "") invalid_bib
  fail_if
      (not target.reserve
        || target.issued
        || target.has_timing_evidence
        || not (target.status == registered)
        || is_some target.transferred_to)
      target_not_available
  after ← vacate command.type source target command
  ok (
      change source after
      ∷ change target (record target { person = source.person; reserve = false; issued = issued })
      ∷ [])
