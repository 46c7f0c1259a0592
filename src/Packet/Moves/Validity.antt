-- ===== src/Packet/Moves/Validity.antt =====
-- Lemmas on the rows that moves and returns leave (internal/packetissuance/transitions.go).
use chrono_desk.Packet.Rows.{find_row}
use chrono_desk.Packet.Moves.Outcome.{Moved-apply_move}
use chrono_desk.Packet.Moves.{vacate, apply_move}
use chrono_desk.Packet.Validate.Parts.{IsValid, IsValidChange}
use chrono_desk.Packet.Validate.{known_status, valid_optional_identifier, validate_optional_person}
use chrono_desk.Prelude.{arith, ◌≡◌, All, Bool, List, false, some}
use chrono_desk.Packet.Model.{
  registration_eq, Command, CommandType, Registration, assign_reserve, move_to_reserve, ok, Change,
}

vacate-IsValid :
    (type : CommandType) (source target : Registration) (command : Command) {after : Registration}
    → IsValid source
    → IsValid target
    → vacate type source target command ≡ ok after
    → IsValid after
unfolding vacate validate_optional_person valid_optional_identifier known_status
vacate-IsValid move_to_reserve source target command v w h = ground arith
vacate-IsValid assign_reserve source target command v w h = ground arith
vacate-IsValid _ source target command v w h = ground arith

received-IsValid :
    (source target : Registration) (issued : Bool)
    → IsValid source
    → IsValid target
    → IsValid (record target { person = source.person; reserve = false; issued = issued })
received-IsValid source target issued v w = ground arith

pub apply_move-IsValid :
    (rows : List Registration) (source : Registration) (command : Command) {changes : List Change}
    → IsValid source
    → ((target : Registration) → find_row command.target_id rows ≡ some target → IsValid target)
    → apply_move rows source command ≡ ok changes
    → All IsValidChange changes
apply_move-IsValid rows source command v known h =
    let m = Moved-apply_move rows source command h in
    let w = known m.target m.found in
    rw (m.result) (
      (v, vacate-IsValid command.type source m.target command v w m.left),
      ((w, received-IsValid source m.target m.issued v w), tt),
    )
