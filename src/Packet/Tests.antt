-- ===== src/Packet/Tests.antt =====
-- Runs of the packet commands on three rows, and the theorems at them.
use chrono_desk.Packet.Reserves.Sound.{HasRow, matching_reserve_origins-HasRow}
use chrono_desk.Packet.Reserves.{current_map, matching_reserve_origins}
use chrono_desk.Text.Decimal.RoundTrip.{valid_assigned_bib-canonical}
use chrono_desk.Packet.Reverse.RoundTrip.{reverse_move-apply}
use chrono_desk.Packet.Fields.{fields_agree}
use chrono_desk.Packet.Reverse.{current_rows, reverse_move}
use chrono_desk.Packet.Moves.{apply_move}
use chrono_desk.Packet.Persons.{apply_edit_person, apply_issue}
use chrono_desk.Packet.Apply.Scope.{apply-fields_agree, apply-protects}
use chrono_desk.Packet.Apply.Validity.{apply-IsValid}
use chrono_desk.Text.Date.{valid_date}
use chrono_desk.Text.Decimal.{valid_assigned_bib, decimal}
use chrono_desk.Packet.Validate.{
  known_status, require_assigned, require_editable, valid_birth_date, valid_optional_identifier,
  validate_optional_person, validate_person, validate_registration,
}
use chrono_desk.Text.Chars.{identifier_pattern, valid_reason, valid_text, codes}
use chrono_desk.Packet.Numbers.{apply_assign_number}
use chrono_desk.Samples.{
  rows, assign, move, after_move, owned_row, numbered_row, left_row, moved_row, timed_row,
  reserve_row, issue_timed,
}
use chrono_desk.Prelude.{
  ◌⊎◌, [], false, refl, true, ◌∷◌, ◌≡◌, All, inl, ℕ, ◌<◌, ◌^◌, ◌↔◌, ◌≤◌, length,
}
use chrono_desk.Packet.Model.{equal_registration, ok, person_beq, move_race}
use chrono_desk.Packet.Apply.{apply}
use chrono_desk.Packet.Rows.{change}

-- What a run computes with.
packet : Unit {0}
unfolding apply validate_registration validate_person valid_birth_date valid_optional_identifier
    validate_optional_person known_status identifier_pattern valid_text valid_reason valid_date
    apply_assign_number apply_edit_person apply_issue apply_move require_editable require_assigned
    valid_assigned_bib equal_registration person_beq reverse_move current_rows fields_agree
packet = tt

assign_runs : apply rows assign ≡ ok (change owned_row numbered_row ∷ [])
unfolding packet
assign_runs = refl

move_runs : apply rows move ≡ ok (change owned_row left_row ∷ change reserve_row moved_row ∷ [])
unfolding packet
move_runs = refl

issue_runs :
    apply rows issue_timed ≡ ok (change timed_row (record timed_row { issued = true }) ∷ [])
unfolding packet
issue_runs = refl

-- A move leaves two valid rows.
apply-IsValid_example :
    All
      (λ c. (validate_registration c.before ≡ ok tt) × (validate_registration c.after ≡ ok tt))
      (change owned_row left_row ∷ change reserve_row moved_row ∷ [])
apply-IsValid_example = apply-IsValid rows move move_runs

apply-fields_agree_example :
    All
      (λ c. fields_agree move_race false c ≡ true)
      (change owned_row left_row ∷ change reserve_row moved_row ∷ [])
apply-fields_agree_example = apply-fields_agree rows move move_runs

apply-protects_example :
    All
      (λ c.
        (c.before.has_timing_evidence ≡ false)
        ⊎ (c.after ≡ record (c.before) { issued = c.after.issued }))
      (change timed_row (record timed_row { issued = true }) ∷ [])
apply-protects_example = apply-protects rows issue_timed issue_runs

indexed_after_move : current_rows [] after_move ≡ ok (timed_row ∷ moved_row ∷ left_row ∷ [])
unfolding packet
indexed_after_move = refl

reverse_move-apply_example :
    reverse_move after_move
      (change owned_row left_row ∷ change reserve_row moved_row ∷ [])
      "wrong race"
    ≡ ok (change left_row owned_row ∷ change moved_row reserve_row ∷ [])
unfolding packet
reverse_move-apply_example =
    reverse_move-apply rows after_move (timed_row ∷ moved_row ∷ left_row ∷ []) move "wrong race"
      (change owned_row left_row) (change reserve_row moved_row) (inl refl) move_runs
      indexed_after_move refl refl refl

valid_assigned_bib-canonical_example :
    (valid_assigned_bib "12" ≡ true) ↔ ((n : ℕ) × (1 ≤ n) × (n < 2 ^ 31) × (codes "12" ≡ decimal n))
valid_assigned_bib-canonical_example = valid_assigned_bib-canonical "12"

matching_reserve_origins-HasRow_example :
    All (HasRow (current_map [] rows)) (matching_reserve_origins rows [])
    × (length (matching_reserve_origins rows []) ≤ 3)
matching_reserve_origins-HasRow_example = matching_reserve_origins-HasRow rows []
