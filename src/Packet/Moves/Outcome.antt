-- ===== src/Packet/Moves/Outcome.antt =====
-- Lemmas on moves and returns that succeed (internal/packetissuance/transitions.go).
use chrono_desk.Packet.Moves.{apply_move, is_assign_reserve, is_move_race, vacate}
use chrono_desk.Packet.Validate.{require_assigned, require_editable}
use chrono_desk.Packet.Rows.{change, find_row}
use chrono_desk.Prelude.{
  Bool, List, [], arith, false, is_some, none, some, true, ◌&&◌, ◌∷◌, ◌≡◌, Option, not, refl, ◌||◌,
}
use chrono_desk.Prelude.Classes.{string_eq, eq_iff, ◌==◌}
use chrono_desk.Packet.Model.{
  registration_eq, status_eq, >>=-eq-ok, Change, Command, Registration, invalid_target, ok, or_fail,
  registered, Person, fail_if-eq-ok, or_fail-eq-ok,
}

pub record Moved (rows : List Registration) (source : Registration) (command : Command)
    (changes : List Change) : Type 0 where
  pub target : Registration
  pub person : Person
  pub after : Registration
  pub issued : Bool
  pub found : find_row command.target_id rows ≡ some target
  pub editable : require_editable source ≡ ok tt
  pub owned : source.reserve ≡ false
  pub has_person : source.person ≡ some person
  pub issue_given : command.issue_packet ≡ some issued
  pub other_row : (command.target_id == source.id) ≡ false
  pub same_event : (target.event_id == source.event_id) ≡ true
  pub free : target.reserve ≡ true
  pub not_issued : target.issued ≡ false
  pub no_evidence : target.has_timing_evidence ≡ false
  pub target_registered : target.status ≡ registered
  pub not_transferred : target.transferred_to ≡ none
  pub other_race : (is_move_race command.type && target.race_id == source.race_id) ≡ false
  pub numbered : (is_assign_reserve command.type && target.bib == "") ≡ false
  pub left : vacate command.type source target command ≡ ok after
  pub result :
      changes
      ≡ change source after
        ∷ change target (record target { person = source.person; reserve = false; issued = issued })
        ∷ []

assigned_row :
    (source : Registration) {p : Person}
    → require_assigned source ≡ ok p
    → (source.reserve ≡ false) × (source.person ≡ some p)
unfolding require_assigned
assigned_row source h = ground arith

none_of_is_some {ℓ} : {A : Type ℓ} (o : Option A) → is_some o ≡ false → o ≡ none
none_of_is_some none h = refl
none_of_is_some (some a) h = cc

target_state :
    (target : Registration)
    → (not target.reserve
        || target.issued
        || target.has_timing_evidence
        || not (target.status == registered)
        || is_some target.transferred_to)
      ≡ false
    → (target.reserve ≡ true)
      × (target.issued ≡ false)
      × (target.has_timing_evidence ≡ false)
      × (target.status ≡ registered)
      × (target.transferred_to ≡ none)
target_state target h =
    ground (arith, eq_iff target.status registered, none_of_is_some target.transferred_to)

three_checks : (a b c : Bool) → (a || not b || c) ≡ false → (a ≡ false) × (b ≡ true) × (c ≡ false)
three_checks a b c h = ground arith

pub Moved-apply_move :
    (rows : List Registration) (source : Registration) (command : Command) {changes : List Change}
    → apply_move rows source command ≡ ok changes
    → Moved rows source command changes
unfolding apply_move
Moved-apply_move rows source command h =
    let (_, e0, h0) = >>=-eq-ok (require_editable source) _ h in
    let (p, e1, h1) = >>=-eq-ok (require_assigned source) _ h0 in
    let (target, e2, h2) =
      >>=-eq-ok (or_fail (find_row command.target_id rows) invalid_target) _ h1 in
    let (issued, e3, h3) = >>=-eq-ok (or_fail command.issue_packet invalid_target) _ h2 in
    let (_, e4, h4) = >>=-eq-ok _ _ h3 in
    let (_, e5, h5) = >>=-eq-ok _ _ h4 in
    let (_, e6, h6) = >>=-eq-ok _ _ h5 in
    let (after, e7, h7) = >>=-eq-ok (vacate command.type source target command) _ h6 in
    let (owned, person) = assigned_row source e1 in
    let (t1, t2, t3, t4, t5) = target_state target (fail_if-eq-ok _ _ e6) in
    let (o1, o2, o3) = three_checks _ _ _ (fail_if-eq-ok _ _ e4) in
    record {
      target = target;
      person = p;
      after = after;
      issued = issued;
      found = or_fail-eq-ok _ _ e2;
      editable = e0;
      owned = owned;
      has_person = person;
      issue_given = or_fail-eq-ok _ _ e3;
      other_row = o1;
      same_event = o2;
      free = t1;
      not_issued = t2;
      no_evidence = t3;
      target_registered = t4;
      not_transferred = t5;
      other_race = o3;
      numbered = fail_if-eq-ok _ _ e5;
      left = e7;
      result = cc h7;
    }
