-- ===== src/Packet/Numbers/Validity.antt =====
-- Lemmas on the rows that the number commands leave (internal/packetissuance/transitions.go).
use chrono_desk.Packet.Rows.{find_row}
use chrono_desk.Packet.Numbers.Outcome.{Returned-apply_return_to_reserve}
use chrono_desk.Packet.Validate.Blank.{empty_registration-reserve}
use chrono_desk.Prelude.Classes.{eq_iff}
use chrono_desk.Packet.Numbers.{
  apply_assign_number, apply_clear_number, apply_create_registration, apply_unassign_number,
  apply_return_to_reserve,
}
use chrono_desk.Packet.Validate.Parts.{IsValid, IsValidChange}
use chrono_desk.Packet.Validate.{validate_optional_person, empty_registration, require_editable}
use chrono_desk.Packet.Model.{registration_eq, Command, Registration, ok, >>=-eq-ok, Change}
use chrono_desk.Prelude.{List, arith, ◌≡◌, All, String, false, none, some, true}

pub apply_assign_number-IsValid :
    (records : List Registration) (source : Registration) (command : Command) {after : Registration}
    → IsValid source
    → apply_assign_number records source command ≡ ok after
    → IsValid after
unfolding apply_assign_number
apply_assign_number-IsValid records source command v h = ground arith

pub apply_create_registration-IsValid :
    (records : List Registration) (source : Registration) (command : Command) {after : Registration}
    → IsValid source
    → apply_create_registration records source command ≡ ok after
    → IsValid after
unfolding apply_create_registration validate_optional_person
apply_create_registration-IsValid records source command v h =
    let (_, e0, h0) = >>=-eq-ok (require_editable source) _ h in
    let (empty, e1, h1) = >>=-eq-ok (empty_registration command) _ h0 in
    ground (arith, eq_iff source empty, empty_registration-reserve command e1)

pub apply_clear_number-IsValid :
    (source : Registration) {after : Registration}
    → IsValid source
    → apply_clear_number source ≡ ok after
    → IsValid after
unfolding apply_clear_number
apply_clear_number-IsValid source v h = ground arith

pub apply_unassign_number-IsValid :
    (source : Registration) {after : Registration}
    → IsValid source
    → apply_unassign_number source ≡ ok after
    → IsValid after
unfolding apply_unassign_number
apply_unassign_number-IsValid source v h = ground arith

reserved-IsValid :
    (source target : Registration) (bib : String)
    → IsValid target
    → target.person ≡ none
    → IsValid (record target { bib = bib; epc = source.epc; reserve = true })
reserved-IsValid source target bib w e = ground arith

unnumbered-IsValid :
    (source : Registration)
    → IsValid source
    → IsValid (record source { bib = ""; epc = ""; issued = false })
unnumbered-IsValid source v = ground arith

pub apply_return_to_reserve-IsValid :
    (rows : List Registration) (source : Registration) (command : Command) {changes : List Change}
    → IsValid source
    → ((target : Registration) → find_row command.target_id rows ≡ some target → IsValid target)
    → apply_return_to_reserve rows source command ≡ ok changes
    → All IsValidChange changes
apply_return_to_reserve-IsValid rows source command v known h =
    let r = Returned-apply_return_to_reserve rows source command h in
    let w = known r.target r.found in
    rw (r.result) (
      (v, unnumbered-IsValid source v),
      ((w, reserved-IsValid source r.target command.bib w r.vacant), tt),
    )
