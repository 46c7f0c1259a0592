-- ===== src/Packet/ParseOperation/Derived.antt =====
-- Proofs on what `ParseOperation` (internal/packetissuance/validation.go) accepts.
use chrono_desk.Text.Decimal.{ℤ}
use chrono_desk.Packet.ParseCommand.{parse_command}
use chrono_desk.Text.Decimal.{pos, negsuc}
use chrono_desk.Packet.Canonical.{write_canonical}
use chrono_desk.Prelude.{
  Bool, List, String, [], any, or_parts, refl, subst, ◌∷◌, ◌≡◌, ◌≢◌, ap, arith, false, inl, inr,
  not, true, ℕ, ◌&&◌, ◌||◌, ◌∙◌, ◌⊎◌, Option, not-false,
}
use chrono_desk.Prelude.Classes.{
  string_eq, nat_eq, list_eq, ◌==◌, Distinct, Unseen, Unseen-tail, Unseen-head, eq_iff,
}
use chrono_desk.Packet.Model.{
  Code, invalid_operation_command, change_eq, Change, Command, CommandType, ok,
  invalid_operation_changes, correct_move, >>=-eq-ok, >>-eq-ok, fail_if-eq-ok, ok-injective, Result,
  err, fail_if, invalid_operation, or_fail,
}
use chrono_desk.Packet.Json.{
  integer, Value, as_array, as_object, get, items_list, optional_text, safe_integer,
}
use chrono_desk.Packet.Operation.{Operation, parse_base, parse_change, Base}
use chrono_desk.Packet.ParseOperation.{
  operation_of, one_event, checked, recode, parse_pairs, before_rows, change_ids, changes_of_pairs,
  check_effect, matches_apply, check_changes, is_int, parse_operation, parse_operation_json,
  checked,
}
use chrono_desk.Packet.Apply.{apply}

parse_pairs-Distinct :
    (type : CommandType) (resolution : Bool) (seen : List String) (bs cs : List Value)
    {pairs : List (Base × Change)}
    → parse_pairs type resolution seen bs cs ≡ ok pairs
    → Unseen seen (change_ids (changes_of_pairs pairs))
      × Distinct (change_ids (changes_of_pairs pairs))
unfolding parse_pairs changes_of_pairs
parse_pairs-Distinct type resolution seen (b ∷ bs) (c ∷ cs) h =
    let (base, e0, h0) = >>=-eq-ok (recode invalid_operation_changes (parse_base b)) _ h in
    let (change, e1, h1) = >>=-eq-ok (recode invalid_operation_changes (parse_change c)) _ h0 in
    let (e2, h2) = >>-eq-ok _ _ h1 in
    let (e3, h3) = >>-eq-ok _ _ h2 in
    let (rest, e4, h4) =
      >>=-eq-ok (parse_pairs type resolution (change.registration_id ∷ seen) bs cs) _ h3 in
    let (unseen, distinct) =
      parse_pairs-Distinct type resolution (change.registration_id ∷ seen) bs cs e4 in
    let (_, fresh) =
      or_parts _ (any (λ id. id == change.registration_id) seen) (fail_if-eq-ok _ _ e2) in
    let ids = change_ids (changes_of_pairs rest) in
    subst
      (λ (ps : List (Base × Change)).
        Unseen seen (change_ids (changes_of_pairs ps))
        × Distinct (change_ids (changes_of_pairs ps)))
      {x = (base, change) ∷ rest} (ok-injective h4)
      (
        (fresh, Unseen-tail change.registration_id seen ids unseen),
        (Unseen-head change.registration_id seen ids unseen, distinct),
      )
parse_pairs-Distinct type resolution seen _ _ h =
    subst
      (λ (ps : List (Base × Change)).
        Unseen seen (change_ids (changes_of_pairs ps))
        × Distinct (change_ids (changes_of_pairs ps)))
      {x = []} (ok-injective h) (tt, tt)

Result-cases {ℓ} : {A : Type ℓ} (r : Result A) → ((a : A) × (r ≡ ok a)) ⊎ ((e : Code) × (r ≡ err e))
Result-cases (ok a) = inl (a, refl)
Result-cases (err e) = inr (e, refl)

matches_apply-derived :
    (changes : List Change) (command : Command)
    → matches_apply changes command ≡ ok tt
    → apply (before_rows changes) command ≡ ok changes
unfolding matches_apply
matches_apply-derived changes command h =
    elim (Result-cases (apply (before_rows changes) command)) [
      | inl (expected, e) ↦
          let same : fail_if (not (expected == changes)) invalid_operation_changes ≡ ok tt =
            rw (e, matches_apply) at h in
          e ∙ ap ok ((eq_iff expected changes).0 (not-false _ (fail_if-eq-ok _ _ same)))
      | inr (c, e) ↦
          let bad : err invalid_operation_command ≡ ok tt = rw (e, matches_apply) at h in cc
    ]

check_effect-derived :
    (type : CommandType) (operation : Operation)
    → type ≢ correct_move
    → check_effect type operation ≡ ok tt
    → matches_apply operation.changes operation.command ≡ ok tt
unfolding check_effect
check_effect-derived correct_move operation n h = elim (n refl) [ ]
check_effect-derived _ operation n h = h

-- What the upload's changes are, for every command but the correction.
abbrev pub IsDerived : Operation → Type 0
IsDerived operation =
    (apply (before_rows operation.changes) operation.command ≡ ok operation.changes)
    × Distinct (change_ids operation.changes)

first_of_six : (a b c d e f : Bool) → (a || b || c || d || e || f) ≡ false → a ≡ false
first_of_six a b c d e f h = ground arith

not_schema_two :
    (schema : ℤ)
    → (not (is_int schema 1) && not (false && is_int schema 2)) ≡ false
    → is_int schema 2 ≡ false
unfolding is_int
not_schema_two (pos n) h = ground arith
not_schema_two (negsuc n) h = refl

check_changes-derived :
    (operation : Operation)
    → is_int operation.schema_version 2 ≡ false
    → operation.command.type ≢ correct_move
    → check_changes operation ≡ ok tt
    → apply (before_rows operation.changes) operation.command ≡ ok operation.changes
unfolding check_changes
check_changes-derived operation s n h =
    matches_apply-derived operation.changes operation.command
      (check_effect-derived operation.command.type operation n (rw (s, check_changes) at h))

checked-IsDerived :
    (parsed : Operation) {operation : Operation}
    → checked parsed ≡ ok operation
    → is_int parsed.schema_version 2 ≡ false
    → Distinct (change_ids parsed.changes)
    → operation.command.type ≢ correct_move
    → IsDerived operation
unfolding checked
checked-IsDerived parsed {operation} h s d n =
    let (u, c, e) = >>=-eq-ok (check_changes parsed) _ h in
    let q : parsed ≡ operation = ok-injective e in
    (
      check_changes-derived operation
          (subst (λ (o : Operation). is_int o.schema_version 2 ≡ false) q s) n
          (subst (λ o. check_changes o ≡ ok tt) q c),
      subst (λ (o : Operation). Distinct (change_ids o.changes)) q d,
    )

parse_operation-IsDerived :
    (value : Value) (canonical : List ℕ) {operation : Operation}
    → parse_operation value canonical false ≡ ok operation
    → operation.command.type ≢ correct_move
    → IsDerived operation
unfolding parse_operation operation_of
parse_operation-IsDerived value canonical {operation} h n =
    let (obj, e0, h0) = >>=-eq-ok (or_fail (as_object value) invalid_operation) _ h in
    let (e1, h1) = >>-eq-ok _ _ h0 in
    let (e2, h2) = >>-eq-ok _ _ h1 in
    let (sequence, e3, h3) =
      >>=-eq-ok (or_fail (safe_integer (get "originSequence" obj) true) invalid_operation) _ h2 in
    let (created, e4, h4) =
      >>=-eq-ok (or_fail (safe_integer (get "createdAtMs" obj) false) invalid_operation) _ h3 in
    let (note, e5, h5) =
      >>=-eq-ok (or_fail (optional_text obj "note" 500) invalid_operation) _ h4 in
    let (command, e6, h6) =
      >>=-eq-ok
        (parse_command (get "command" obj) (false && is_int (integer (get "schemaVersion" obj)) 2))
        _ h5 in
    let (bases, e7, h7) = >>=-eq-ok (or_fail (as_array (get "bases" obj)) invalid_operation) _ h6 in
    let (changes, e8, h8) =
      >>=-eq-ok (or_fail (as_array (get "changes" obj)) invalid_operation) _ h7 in
    let (e9, h9) = >>-eq-ok _ _ h8 in
    let (pairs, e10, h10) =
      >>=-eq-ok
        (parse_pairs command.type (is_int (integer (get "schemaVersion" obj)) 2) []
          (items_list bases) (items_list changes))
        _ h9 in
    let (e11, h11) =
      >>-eq-ok
        (fail_if (not (one_event (before_rows (changes_of_pairs pairs)))) invalid_operation_changes)
        _ h10 in
    checked-IsDerived (operation_of obj canonical sequence created command pairs note) h11
      (not_schema_two (integer (get "schemaVersion" obj))
        (first_of_six _ _ _ _ _ _ (fail_if-eq-ok _ _ e2)))
      (parse_pairs-Distinct command.type (is_int (integer (get "schemaVersion" obj)) 2) []
        (items_list bases) (items_list changes) e10).1
      n

-- An upload that is accepted and is not a correction announces exactly the changes that `Apply`
-- derives from its images before, each for another row.
pub parse_operation_json-IsDerived :
    (decoded : Option Value) {operation : Operation}
    → parse_operation_json decoded false ≡ ok operation
    → operation.command.type ≢ correct_move
    → IsDerived operation
unfolding parse_operation_json
parse_operation_json-IsDerived decoded h n =
    let (value, e0, h0) = >>=-eq-ok (or_fail decoded invalid_operation) _ h in
    let (canonical, e1, h1) = >>=-eq-ok (or_fail (write_canonical value) invalid_operation) _ h0 in
    parse_operation-IsDerived value canonical h1 n
