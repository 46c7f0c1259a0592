-- ===== src/Packet/Numbers/Scope.antt =====
-- Lemmas on the fields that the number commands change (internal/packetissuance/transitions.go).
use chrono_desk.Packet.Numbers.Outcome.{Returned-apply_return_to_reserve}
use chrono_desk.Packet.Fields.Evidence.{Protects, editable_no_evidence}
use chrono_desk.Packet.Fields.Kept.{KeptFields-self}
use chrono_desk.Packet.Validate.{require_editable}
use chrono_desk.Packet.Numbers.{
  apply_assign_number, apply_clear_number, apply_create_registration, apply_unassign_number,
  write_number, apply_return_to_reserve,
}
use chrono_desk.Packet.Fields.{fields_agree}
use chrono_desk.Prelude.{List, arith, true, ◌≡◌, All, String, false}
use chrono_desk.Prelude.Classes.{string_eq, bool_eq, nat_eq}
use chrono_desk.Packet.Model.{
  return_to_reserve, assign_number, create_registration, clear_number, unassign_number, Command,
  Registration, ok, Change,
}
use chrono_desk.Packet.Rows.{change}

module _ (source : Registration) {after : Registration} where
  pub apply_assign_number-fields_agree :
      (records : List Registration) (command : Command)
      → apply_assign_number records source command ≡ ok after
      → fields_agree assign_number false (change source after) ≡ true
  unfolding apply_assign_number write_number fields_agree
  apply_assign_number-fields_agree records command h = ground (arith, KeptFields-self source)

  pub apply_assign_number-protects :
      (records : List Registration) (command : Command)
      → apply_assign_number records source command ≡ ok after
      → source.has_timing_evidence ≡ true
      → after ≡ record source { issued = after.issued }
  unfolding apply_assign_number write_number require_editable
  apply_assign_number-protects records command h e = ground arith

  pub apply_create_registration-fields_agree :
      (records : List Registration) (command : Command)
      → apply_create_registration records source command ≡ ok after
      → fields_agree create_registration false (change source after) ≡ true
  unfolding apply_create_registration write_number fields_agree
  apply_create_registration-fields_agree records command h = ground (arith, KeptFields-self source)

  pub apply_create_registration-protects :
      (records : List Registration) (command : Command)
      → apply_create_registration records source command ≡ ok after
      → source.has_timing_evidence ≡ true
      → after ≡ record source { issued = after.issued }
  unfolding apply_create_registration write_number require_editable
  apply_create_registration-protects records command h e = ground arith

  pub apply_clear_number-fields_agree :
      apply_clear_number source ≡ ok after
      → fields_agree clear_number false (change source after) ≡ true
  unfolding apply_clear_number fields_agree
  apply_clear_number-fields_agree h = ground (arith, KeptFields-self source)

  pub apply_clear_number-protects :
      apply_clear_number source ≡ ok after
      → source.has_timing_evidence ≡ true
      → after ≡ record source { issued = after.issued }
  unfolding apply_clear_number require_editable
  apply_clear_number-protects h e = ground arith

  pub apply_unassign_number-fields_agree :
      apply_unassign_number source ≡ ok after
      → fields_agree unassign_number false (change source after) ≡ true
  unfolding apply_unassign_number fields_agree
  apply_unassign_number-fields_agree h = ground (arith, KeptFields-self source)

  pub apply_unassign_number-protects :
      apply_unassign_number source ≡ ok after
      → source.has_timing_evidence ≡ true
      → after ≡ record source { issued = after.issued }
  unfolding apply_unassign_number require_editable
  apply_unassign_number-protects h e = ground arith

numbered-fields_agree :
    (target : Registration) (bib epc : String)
    → fields_agree return_to_reserve false
        (change target (record target { bib = bib; epc = epc; reserve = true }))
      ≡ true
unfolding fields_agree
numbered-fields_agree target bib epc = ground (arith, KeptFields-self target)

unnumbered-fields_agree :
    (source : Registration)
    → fields_agree return_to_reserve false
        (change source (record source { bib = ""; epc = ""; issued = false }))
      ≡ true
unfolding fields_agree
unnumbered-fields_agree source = ground (arith, KeptFields-self source)

module _ (rows : List Registration) (source : Registration) (command : Command)
    {changes : List Change} (h : apply_return_to_reserve rows source command ≡ ok changes) where
  pub apply_return_to_reserve-fields_agree :
      All (λ c. fields_agree return_to_reserve false c ≡ true) changes
  apply_return_to_reserve-fields_agree =
      let r = Returned-apply_return_to_reserve rows source command h in
      rw (r.result) (
        unnumbered-fields_agree source,
        (numbered-fields_agree r.target command.bib source.epc, tt),
      )

  pub apply_return_to_reserve-Protects : All Protects changes
  apply_return_to_reserve-Protects =
      let r = Returned-apply_return_to_reserve rows source command h in
      rw (r.result)
        (λ e. absurd (editable_no_evidence source r.editable e), (λ e. cc (r.no_evidence), tt))
