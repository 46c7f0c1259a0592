-- ===== src/Packet/Moves/Scope.antt =====
-- Lemmas on the fields that moves change (internal/packetissuance/transitions.go).
use chrono_desk.Packet.Fields.Evidence.{Protects, editable_no_evidence}
use chrono_desk.Packet.Moves.Outcome.{Moved-apply_move}
use chrono_desk.Packet.Moves.{apply_move, vacate}
use chrono_desk.Packet.Fields.Kept.{KeptFields-self}
use chrono_desk.Packet.Fields.{fields_agree}
use chrono_desk.Packet.Model.{
  Change, Command, CommandType, Person, Registration, assign_reserve, move_to_reserve, ok,
}
use chrono_desk.Prelude.{All, Bool, List, Option, arith, false, true, ◌≡◌}
use chrono_desk.Prelude.Classes.{string_eq, bool_eq, nat_eq}
use chrono_desk.Packet.Rows.{change}

vacate-fields_agree :
    (type : CommandType) (source target : Registration) (command : Command) {after : Registration}
    → vacate type source target command ≡ ok after
    → fields_agree type false (change source after) ≡ true
unfolding vacate fields_agree
vacate-fields_agree move_to_reserve source target command h = ground (arith, KeptFields-self source)
vacate-fields_agree assign_reserve source target command h = ground (arith, KeptFields-self source)
vacate-fields_agree _ source target command h = ground (arith, KeptFields-self source)

received-fields_agree :
    (type : CommandType) (target : Registration) (person : Option Person) (issued : Bool)
    → fields_agree type false
        (change target (record target { person = person; reserve = false; issued = issued }))
      ≡ true
unfolding fields_agree
received-fields_agree type target person issued = ground (arith, KeptFields-self target)

pub apply_move-fields_agree :
    (rows : List Registration) (source : Registration) (command : Command) {changes : List Change}
    → apply_move rows source command ≡ ok changes
    → All (λ c. fields_agree command.type false c ≡ true) changes
apply_move-fields_agree rows source command h =
    let m = Moved-apply_move rows source command h in
    rw (m.result) (
      vacate-fields_agree command.type source m.target command m.left,
      (received-fields_agree command.type m.target source.person m.issued, tt),
    )

pub apply_move-Protects :
    (rows : List Registration) (source : Registration) (command : Command) {changes : List Change}
    → apply_move rows source command ≡ ok changes
    → All Protects changes
apply_move-Protects rows source command h =
    let m = Moved-apply_move rows source command h in
    rw (m.result)
      (λ e. absurd (editable_no_evidence source m.editable e), (λ e. cc (m.no_evidence), tt))
