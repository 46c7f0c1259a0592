-- ===== src/Packet/Fields.antt =====
-- The field checks of `parseOperation` (internal/packetissuance/validation.go): which fields of a row
-- a command of each type may change. `resolution` is `operation.SchemaVersion == 2`.
pub mod Kept
pub mod Evidence
use chrono_desk.Packet.Model.{
  Change, CommandType, assign_number, assign_reserve, change_race, clear_number, correct_move,
  create_registration, return_to_reserve, unassign_number,
}
use chrono_desk.Prelude.{Bool, false, true, ◌&&◌, ◌||◌}
use chrono_desk.Prelude.Classes.{string_eq, bool_eq, nat_eq, ◌==◌}

unfoldable pub may_change_bib : CommandType → Bool
may_change_bib return_to_reserve = true
may_change_bib clear_number = true
may_change_bib assign_reserve = true
may_change_bib correct_move = true
may_change_bib assign_number = true
may_change_bib unassign_number = true
may_change_bib create_registration = true
may_change_bib _ = false

unfoldable pub may_change_epc : CommandType → Bool
may_change_epc return_to_reserve = true
may_change_epc clear_number = true
may_change_epc assign_reserve = true
may_change_epc correct_move = true
may_change_epc _ = false

unfoldable pub may_change_race : CommandType → Bool
may_change_race change_race = true
may_change_race _ = false

unfoldable pub fields_agree : CommandType → Bool → Change → Bool
unfolding may_change_bib may_change_epc may_change_race
fields_agree type resolution c =
    c.before.id == c.after.id
    && c.before.event_id == c.after.event_id
    && (c.before.race_id == c.after.race_id || may_change_race type)
    && (c.before.bib == c.after.bib || may_change_bib type || resolution)
    && (c.before.epc == c.after.epc || may_change_epc type || resolution)
    && c.before.has_timing_evidence == c.after.has_timing_evidence
    && c.before.id == c.registration_id
