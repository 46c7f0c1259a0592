-- ===== src/Packet/Reverse/Flags.antt =====
-- How `ReverseMove` recognises the kind of the original move from the source row that it left.
use chrono_desk.Packet.Reverse.{empty_source, legacy_source, move_type, release_source}
use chrono_desk.Packet.Moves.{vacate}
use chrono_desk.Prelude.{arith, false, not, some, ◌&&◌, ◌≡◌}
use chrono_desk.Prelude.Classes.{string_eq, bool_eq, option_eq, eq_refl}
use chrono_desk.Packet.Model.{
  registration_eq, status_eq, move_race, move_to_reserve, Command, CommandType, Person,
  Registration, ok,
}

abbrev pub KeepsRow : CommandType → Type 0
KeepsRow move_race = Unit
KeepsRow move_to_reserve = Unit
KeepsRow _ = ⊥

-- Of a move that keeps the number on the source row: its kind is recognised, the source row has the
-- form of that kind, and a replay vacates the row in the same way.
pub record Recognised (type : CommandType) (source target after : Registration) (again : Command)
    : Type 0 where
  pub kind : move_type after ≡ type
  pub form :
      (not (release_source after)
        && not (empty_source after)
        && not (legacy_source after target.id))
      ≡ false
  pub same_left : vacate type source target again ≡ ok after
  pub same_bib : after.bib ≡ source.bib
  pub same_epc : after.epc ≡ source.epc
  pub same_race : after.race_id ≡ source.race_id
  pub same_event : after.event_id ≡ source.event_id
  pub same_id : after.id ≡ source.id
  pub same_evidence : after.has_timing_evidence ≡ source.has_timing_evidence

pub Recognised-vacate :
    (type : CommandType) (source target after : Registration) (command again : Command) (p : Person)
    → KeepsRow type
    → source.person ≡ some p
    → source.reserve ≡ false
    → vacate type source target command ≡ ok after
    → Recognised type source target after again
unfolding vacate move_type release_source empty_source legacy_source
Recognised-vacate move_race source target after command again p k h r e =
    ground (arith, eq_refl target.id)
Recognised-vacate move_to_reserve source target after command again p k h r e = ground arith
Recognised-vacate _ source target after command again p k h r e = elim k [ ]
