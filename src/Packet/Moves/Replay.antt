-- ===== src/Packet/Moves/Replay.antt =====
-- Lemmas on a move that is made again (internal/packetissuance/transitions.go).
use chrono_desk.Packet.Validate.{require_assigned, require_editable}
use chrono_desk.Packet.Moves.{apply_move, is_assign_reserve, is_move_race, vacate}
use chrono_desk.Prelude.{
  Bool, List, [], arith, false, is_some, none, not, some, true, ◌&&◌, ◌||◌, ◌∷◌, ◌≡◌,
}
use chrono_desk.Prelude.Classes.{string_eq, bool_eq, eq_iff, ◌==◌}
use chrono_desk.Packet.Model.{
  registration_eq, status_eq, Command, Person, Registration, ok, registered,
}
use chrono_desk.Packet.Rows.{change, find_row}

target_available :
    (target : Registration)
    → target.reserve ≡ true
    → target.issued ≡ false
    → target.has_timing_evidence ≡ false
    → target.status ≡ registered
    → target.transferred_to ≡ none
    → (not target.reserve
        || target.issued
        || target.has_timing_evidence
        || not (target.status == registered)
        || is_some target.transferred_to)
      ≡ false
target_available target h1 h2 h3 h4 h5 = ground (arith, eq_iff target.status registered)

require_assigned-some :
    (source : Registration) (p : Person)
    → source.reserve ≡ false
    → source.person ≡ some p
    → require_assigned source ≡ ok p
unfolding require_assigned
require_assigned-some source p h e = ground arith

pub apply_move_again :
    (rows : List Registration) (source target after : Registration) (p : Person) (issued : Bool)
    (command : Command)
    → require_editable source ≡ ok tt
    → source.reserve ≡ false
    → source.person ≡ some p
    → find_row command.target_id rows ≡ some target
    → command.issue_packet ≡ some issued
    → (command.target_id == source.id
        || not (target.event_id == source.event_id)
        || (is_move_race command.type && target.race_id == source.race_id))
      ≡ false
    → (is_assign_reserve command.type && target.bib == "") ≡ false
    → target.reserve ≡ true
    → target.issued ≡ false
    → target.has_timing_evidence ≡ false
    → target.status ≡ registered
    → target.transferred_to ≡ none
    → vacate command.type source target command ≡ ok after
    → apply_move rows source command
      ≡ ok (
          change source after
          ∷ change target
              (record target { person = source.person; reserve = false; issued = issued })
          ∷ [])
unfolding apply_move
apply_move_again rows source target after p issued command e1 h1 h2 e2 e3 e4 e5 t1 t2 t3 t4 t5 e6 =
    simp (
      e1,
      require_assigned-some source p h1 h2,
      e2,
      e3,
      e4,
      e5,
      target_available target t1 t2 t3 t4 t5,
      e6,
    )
