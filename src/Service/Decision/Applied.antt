-- ===== src/Service/Decision/Applied.antt =====
-- Proofs on operations that `packetMergeDecision` (internal/service/packet_issuance.go) applies.
use chrono_desk.Service.Decision.RowEffects.{packet_effect_matches-RowEffect}
use chrono_desk.Service.Decision.Effects.{RowEffect}
use chrono_desk.Prelude.{
  All, Bool, Bool-cases, List, Option, Option-cases, String, [], ap, false, inl, inr, some,
  some-injective, subst, sym, true, ◌∙◌, ◌∷◌, ◌≡◌, ◌≢◌, In, and_parts, none, refl, ◌⊎◌,
}
use chrono_desk.Prelude.Classes.{string_eq, ◌==◌, eq_iff}
use chrono_desk.Packet.Model.{Registration, Change, Result, ok, err, correct_move}
use chrono_desk.Packet.Operation.{Operation}
use chrono_desk.Packet.Apply.{apply}
use chrono_desk.Service.Decision.{
  Decision, equivalent, applied, conflict, derived, decide, incompatible, operation_effect_changed,
  StoredOperation, all_effects, all_equivalent, check_compatible, packet_compatible,
  packet_merge_decision, actual_change, current_registration, find_change, packet_effect_matches,
}
use chrono_desk.Service.Decision.Replay.{derive-apply}

not_applied : Decision → Bool
not_applied (applied changes) = false
not_applied _ = true

check_compatible-not_applied :
    (cs : List Change) (rows : List Registration) {d : Decision}
    → check_compatible cs rows ≡ some d
    → not_applied d ≡ true
unfolding check_compatible not_applied
check_compatible-not_applied [] rows h = cc
check_compatible-not_applied (c ∷ cs) [] h = ap not_applied (sym (some-injective h))
check_compatible-not_applied (c ∷ cs) (row ∷ rows) {d} h =
    elim (Bool-cases (packet_compatible c.before c.after row)) [
      | inl e ↦ check_compatible-not_applied cs rows (rw (e, check_compatible) at h)
      | inr e ↦
          let stop : some (conflict (incompatible c row)) ≡ some d =
            rw (e, check_compatible) at h in
          ap not_applied (sym (some-injective stop))
    ]

decide-applied :
    (current : List Registration) (expected : List Change) (r : Result (List Change))
    {changes : List Change}
    → decide current expected (derived r) ≡ applied changes
    → (r ≡ ok changes) × (all_effects current changes expected ≡ true)
unfolding decide
decide-applied current expected (err e) h = cc
decide-applied current expected (ok cs) {changes} h =
    elim (Bool-cases (all_effects current cs expected)) [
      | inl e ↦
          let same : applied cs ≡ applied changes = rw (e, decide) at h in
          let same_changes : cs ≡ changes = cc in
          (ap ok same_changes, subst (λ x. all_effects current x expected ≡ true) same_changes e)
      | inr e ↦
          let bad : conflict operation_effect_changed ≡ applied changes = rw (e, decide) at h in cc
    ]

-- What the applied changes make of the row with an id: one of them is its change, or none is and it stays
-- the current row.
unfoldable pub IsActual : List Registration → List Change → String → Change → Type 0
IsActual current changes id d =
    (In d changes × (d.registration_id ≡ id))
    ⊎ (All (λ x. x.registration_id ≢ id) changes
        × (d.before ≡ current_registration current id)
        × (d.after ≡ current_registration current id))

true_not_false : true ≡ false → ⊥
true_not_false h = cc

find_change-In :
    (id : String) (cs : List Change) (d : Change)
    → find_change id cs ≡ some d
    → In d cs × (d.registration_id ≡ id)
unfolding find_change
find_change-In id [] d h = cc
find_change-In id (c ∷ cs) d h = elim (Option-cases (find_change id cs)) [
  | inl e ↦ elim (Bool-cases (c.registration_id == id)) [
    | inl p ↦
        let found : some c ≡ some d = rw (e, find_change, p) at h in
        let is_here = some-injective found in
        (
          inl is_here,
          ap (λ (x : Change). x.registration_id) (sym is_here) ∙ (eq_iff c.registration_id id).0 p,
        )
    | inr p ↦ let bad : none ≡ some d = rw (e, find_change, p) at h in cc
  ]
  | inr (x, e) ↦
      let found : some x ≡ some d = rw (e, find_change) at h in
      let (there, named) = find_change-In id cs d (e ∙ found) in (inr there, named)
]

find_change-All :
    (id : String) (cs : List Change)
    → find_change id cs ≡ none
    → All (λ x. x.registration_id ≢ id) cs
unfolding find_change
find_change-All id [] h = tt
find_change-All id (c ∷ cs) h = elim (Option-cases (find_change id cs)) [
  | inl e ↦ elim (Bool-cases (c.registration_id == id)) [
    | inl p ↦ let bad : some c ≡ none = rw (e, find_change, p) at h in cc
    | inr p ↦
        (λ q. true_not_false (sym ((eq_iff c.registration_id id).1 q) ∙ p), find_change-All id cs e)
  ]
  | inr (x, e) ↦ let bad : some x ≡ none = rw (e, find_change) at h in cc
]

actual_change-IsActual :
    (current : List Registration) (changes : List Change) (id : String)
    → IsActual current changes id (actual_change current changes id)
unfolding actual_change IsActual
actual_change-IsActual current changes id = elim (Option-cases (find_change id changes)) [
  | inl e ↦ rw (e, actual_change) (inr (find_change-All id changes e, refl, refl))
  | inr (d, e) ↦ rw (e, actual_change) (inl (find_change-In id changes d e))
]

-- The announced change of a row and what is applied to the row.
unfoldable pub IsEffected : List Registration → List Change → Change → Type 0
unfolding IsActual
IsEffected current changes c =
    (d : Change) × IsActual current changes c.registration_id d
    × RowEffect c.before c.after d.before d.after

all_effects-IsEffected :
    (current : List Registration) (changes expected : List Change)
    → all_effects current changes expected ≡ true
    → All (IsEffected current changes) expected
unfolding all_effects IsEffected
all_effects-IsEffected current changes [] h = tt
all_effects-IsEffected current changes (c ∷ cs) h =
    let d = actual_change current changes c.registration_id in
    let (first, rest) =
      and_parts (packet_effect_matches c.before c.after d.before d.after)
        (all_effects current changes cs) h in
    (
      (
        d,
        actual_change-IsActual current changes c.registration_id,
        packet_effect_matches-RowEffect c.before c.after d.before d.after first,
      ),
      all_effects-IsEffected current changes cs rest,
    )

-- An operation, other than a correction, is applied only with the changes that `Apply` derives from
-- the current rows. For every row that the operation names, the applied changes do to each of its fields
-- what the operation announces: a field that the announced change leaves is left, and any other field ends
-- with the announced value after and was the announced value before, or that after. A row without an
-- applied change counts as left, and a person who is there on all sides is compared field by field.
pub packet_merge_decision-applied :
    (find : String → Option StoredOperation) (current : List Registration) (operation : Operation)
    {changes : List Change}
    → operation.command.type ≢ correct_move
    → packet_merge_decision find current operation ≡ applied changes
    → (apply current operation.command ≡ ok changes)
      × All (IsEffected current changes) operation.changes
unfolding packet_merge_decision not_applied
packet_merge_decision-applied find current operation {changes} n h =
    elim (Option-cases (check_compatible operation.changes current)) [
      | inl e ↦ elim (Bool-cases (all_equivalent operation.changes current)) [
        | inl q ↦
            let bad : equivalent ≡ applied changes = rw (e, q, packet_merge_decision) at h in cc
        | inr q ↦
            let (r, effects) =
              decide-applied current operation.changes (apply current operation.command) (
                rw
                  (
                    e,
                    q,
                    derive-apply find operation.command.type current operation.command n,
                    packet_merge_decision,
                  )
                  at h) in
            (r, all_effects-IsEffected current changes operation.changes effects)
      ]
      | inr (d, e) ↦
          let same : d ≡ applied changes = rw (e, packet_merge_decision) at h in
          let bad : true ≡ false =
            sym (check_compatible-not_applied operation.changes current e) ∙ ap not_applied same in
          cc
    ]
