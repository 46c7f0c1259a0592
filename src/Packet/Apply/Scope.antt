-- ===== src/Packet/Apply/Scope.antt =====
-- Proofs on the fields that `Apply` (internal/packetissuance/transitions.go) changes.
use chrono_desk.Packet.Fields.{fields_agree}
use chrono_desk.Packet.Moves.Scope.{apply_move-fields_agree, apply_move-Protects}
use chrono_desk.Packet.Persons.Scope.{
  apply_change_race-fields_agree, apply_change_race-protects, apply_edit_person-fields_agree,
  apply_edit_person-protects, apply_issue-fields_agree, apply_issue-protects,
  apply_release_to_reserve-fields_agree, apply_release_to_reserve-protects,
  apply_replace_person-fields_agree, apply_replace_person-protects, apply_set_dns-fields_agree,
  apply_set_dns-protects, apply_undo_issue-fields_agree, apply_undo_issue-protects,
}
use chrono_desk.Packet.Numbers.Scope.{
  apply_assign_number-fields_agree, apply_assign_number-protects, apply_clear_number-fields_agree,
  apply_clear_number-protects, apply_create_registration-fields_agree,
  apply_create_registration-protects, apply_return_to_reserve-fields_agree,
  apply_return_to_reserve-Protects, apply_unassign_number-fields_agree,
  apply_unassign_number-protects,
}
use chrono_desk.Packet.Fields.Evidence.{Protects}
use chrono_desk.Packet.Apply.Cases.{one_row-All}
use chrono_desk.Packet.Apply.{apply, transition}
use chrono_desk.Packet.Rows.{find_row, index_rows}
use chrono_desk.Prelude.{
  inl, inr, ◌⊎◌, Bool-cases, All-map, All, List, [], refl, subst, true, ◌≡◌, false,
}
use chrono_desk.Packet.Model.{
  registration_eq, assign_number, create_registration, return_to_reserve, clear_number,
  unassign_number, issue, undo_issue, set_dns, release_to_reserve, edit_person, change_race,
  replace_person, move_race, move_to_reserve, assign_reserve, correct_move, resolve_conflict,
  other_type, >>=-eq-ok, Change, Command, CommandType, Registration, ok, or_fail,
  registration_not_found,
}

transition-fields_agree :
    (type : CommandType) (records rows : List Registration) (source : Registration)
    (command : Command) {changes : List Change}
    → command.type ≡ type
    → transition type records rows source command ≡ ok changes
    → All (λ c. fields_agree type false c ≡ true) changes
unfolding transition
transition-fields_agree assign_number records rows source command e h =
    one_row-All (λ c. fields_agree assign_number false c ≡ true) source _
      (λ a. apply_assign_number-fields_agree source records command) h
transition-fields_agree create_registration records rows source command e h =
    one_row-All (λ c. fields_agree create_registration false c ≡ true) source _
      (λ a. apply_create_registration-fields_agree source records command) h
transition-fields_agree return_to_reserve records rows source command e h =
    apply_return_to_reserve-fields_agree rows source command h
transition-fields_agree clear_number records rows source command e h =
    one_row-All (λ c. fields_agree clear_number false c ≡ true) source _
      (λ a. apply_clear_number-fields_agree source) h
transition-fields_agree unassign_number records rows source command e h =
    one_row-All (λ c. fields_agree unassign_number false c ≡ true) source _
      (λ a. apply_unassign_number-fields_agree source) h
transition-fields_agree issue records rows source command e h =
    one_row-All (λ c. fields_agree issue false c ≡ true) source _
      (λ a. apply_issue-fields_agree source) h
transition-fields_agree undo_issue records rows source command e h =
    one_row-All (λ c. fields_agree undo_issue false c ≡ true) source _
      (λ a. apply_undo_issue-fields_agree source command) h
transition-fields_agree set_dns records rows source command e h =
    one_row-All (λ c. fields_agree set_dns false c ≡ true) source _
      (λ a. apply_set_dns-fields_agree source command) h
transition-fields_agree release_to_reserve records rows source command e h =
    one_row-All (λ c. fields_agree release_to_reserve false c ≡ true) source _
      (λ a. apply_release_to_reserve-fields_agree source) h
transition-fields_agree edit_person records rows source command e h =
    one_row-All (λ c. fields_agree edit_person false c ≡ true) source _
      (λ a. apply_edit_person-fields_agree source command) h
transition-fields_agree change_race records rows source command e h =
    one_row-All (λ c. fields_agree change_race false c ≡ true) source _
      (λ a. apply_change_race-fields_agree source command) h
transition-fields_agree replace_person records rows source command e h =
    one_row-All (λ c. fields_agree replace_person false c ≡ true) source _
      (λ a. apply_replace_person-fields_agree source command) h
transition-fields_agree move_race records rows source command {changes} e h =
    subst (λ t. All (λ c. fields_agree t false c ≡ true) changes) e
      (apply_move-fields_agree rows source command h)
transition-fields_agree move_to_reserve records rows source command {changes} e h =
    subst (λ t. All (λ c. fields_agree t false c ≡ true) changes) e
      (apply_move-fields_agree rows source command h)
transition-fields_agree assign_reserve records rows source command {changes} e h =
    subst (λ t. All (λ c. fields_agree t false c ≡ true) changes) e
      (apply_move-fields_agree rows source command h)
transition-fields_agree correct_move records rows source command e h = cc
transition-fields_agree resolve_conflict records rows source command e h = cc
transition-fields_agree (other_type s) records rows source command e h = cc

-- Every change that `Apply` derives for a command of schema 1 passes the field checks that
-- `parseOperation` makes of a change: id, event and timing evidence stay, and race, bib and EPC
-- change only under the command types that may change them.
pub apply-fields_agree :
    (records : List Registration) (command : Command) {changes : List Change}
    → apply records command ≡ ok changes
    → All (λ c. fields_agree command.type false c ≡ true) changes
unfolding apply
apply-fields_agree records command h =
    let (rows, e0, h0) = >>=-eq-ok (index_rows [] records) _ h in
    let (source, e1, h1) =
      >>=-eq-ok (or_fail (find_row command.registration_id rows) registration_not_found) _ h0 in
    transition-fields_agree command.type records rows source command refl h1

transition-Protects :
    (type : CommandType) (records rows : List Registration) (source : Registration)
    (command : Command) {changes : List Change}
    → transition type records rows source command ≡ ok changes
    → All Protects changes
unfolding transition
transition-Protects assign_number records rows source command h =
    one_row-All (Protects) source _ (λ a. apply_assign_number-protects source records command) h
transition-Protects create_registration records rows source command h =
    one_row-All (Protects) source _ (λ a. apply_create_registration-protects source records command)
      h
transition-Protects return_to_reserve records rows source command h =
    apply_return_to_reserve-Protects rows source command h
transition-Protects clear_number records rows source command h =
    one_row-All (Protects) source _ (λ a. apply_clear_number-protects source) h
transition-Protects unassign_number records rows source command h =
    one_row-All (Protects) source _ (λ a. apply_unassign_number-protects source) h
transition-Protects issue records rows source command h =
    one_row-All (Protects) source _ (λ a. apply_issue-protects source) h
transition-Protects undo_issue records rows source command h =
    one_row-All (Protects) source _ (λ a. apply_undo_issue-protects source command) h
transition-Protects set_dns records rows source command h =
    one_row-All (Protects) source _ (λ a. apply_set_dns-protects source command) h
transition-Protects release_to_reserve records rows source command h =
    one_row-All (Protects) source _ (λ a. apply_release_to_reserve-protects source) h
transition-Protects edit_person records rows source command h =
    one_row-All (Protects) source _ (λ a. apply_edit_person-protects source command) h
transition-Protects change_race records rows source command h =
    one_row-All (Protects) source _ (λ a. apply_change_race-protects source command) h
transition-Protects replace_person records rows source command h =
    one_row-All (Protects) source _ (λ a. apply_replace_person-protects source command) h
transition-Protects move_race records rows source command h =
    apply_move-Protects rows source command h
transition-Protects move_to_reserve records rows source command h =
    apply_move-Protects rows source command h
transition-Protects assign_reserve records rows source command h =
    apply_move-Protects rows source command h
transition-Protects correct_move records rows source command h = cc
transition-Protects resolve_conflict records rows source command h = cc
transition-Protects (other_type s) records rows source command h = cc

apply-protects_row :
    (records : List Registration) (command : Command) {changes : List Change}
    → apply records command ≡ ok changes
    → All
        (λ c.
          c.before.has_timing_evidence ≡ true
          → c.after ≡ record (c.before) { issued = c.after.issued })
        changes
unfolding apply
apply-protects_row records command h =
    let (rows, e0, h0) = >>=-eq-ok (index_rows [] records) _ h in
    let (source, e1, h1) =
      >>=-eq-ok (or_fail (find_row command.registration_id rows) registration_not_found) _ h0 in
    transition-Protects command.type records rows source command h1

-- Under every command a changed row with timing evidence keeps every field but its issued mark.
pub apply-protects :
    (records : List Registration) (command : Command) {changes : List Change}
    → apply records command ≡ ok changes
    → All
        (λ c.
          (c.before.has_timing_evidence ≡ false)
          ⊎ (c.after ≡ record (c.before) { issued = c.after.issued }))
        changes
apply-protects records command {changes} h =
    All-map
      (λ c.
        c.before.has_timing_evidence ≡ true
        → c.after ≡ record (c.before) { issued = c.after.issued })
      (λ c.
        (c.before.has_timing_evidence ≡ false)
        ⊎ (c.after ≡ record (c.before) { issued = c.after.issued }))
      (λ c k. elim (Bool-cases c.before.has_timing_evidence) [ inl e ↦ inr (k e) | inr e ↦ inl e ])
      changes (apply-protects_row records command h)
