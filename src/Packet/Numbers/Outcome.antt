-- ===== src/Packet/Numbers/Outcome.antt =====
-- Lemmas on a return of a number that succeeds (internal/packetissuance/transitions.go).
use chrono_desk.Text.Decimal.{valid_assigned_bib}
use chrono_desk.Packet.Numbers.{apply_return_to_reserve, reserve_target}
use chrono_desk.Packet.Validate.Blank.{empty_reserve_facts}
use chrono_desk.Packet.Validate.{empty_reserve, require_assigned, require_editable}
use chrono_desk.Packet.Rows.{change, find_row}
use chrono_desk.Prelude.{
  Bool, List, Option, [], arith, false, none, not, some, true, ◌&&◌, ◌||◌, ◌∷◌, ◌≡◌,
}
use chrono_desk.Prelude.Classes.{string_eq, eq_iff, ◌==◌}
use chrono_desk.Packet.Model.{
  registration_eq, status_eq, >>=-eq-ok, Change, Command, Person, Registration, Result, err,
  fail_if-eq-ok, ok,
}

pub record Returned (rows : List Registration) (source : Registration) (command : Command)
    (changes : List Change) : Type 0 where
  pub target : Registration
  pub found : find_row command.target_id rows ≡ some target
  pub editable : require_editable source ≡ ok tt
  pub owned : source.reserve ≡ false
  pub accepted : valid_assigned_bib command.bib ≡ true
  pub own_number :
      (not (source.bib == command.bib) && not (source.bib == "" && not (source.epc == ""))) ≡ false
  pub other_row : (target.id == source.id) ≡ false
  pub same_event : target.event_id ≡ source.event_id
  pub vacant : target.person ≡ none
  pub no_evidence : target.has_timing_evidence ≡ false
  pub result :
      changes
      ≡ change source (record source { bib = ""; epc = ""; issued = false })
        ∷ change target (record target { bib = command.bib; epc = source.epc; reserve = true })
        ∷ []

blank_target :
    (o : Option Registration) (empty : Result Registration) (source : Registration)
    {target : Registration}
    → reserve_target o empty source ≡ ok target
    → (o ≡ some target) × ((target.id == source.id) ≡ false) × (empty ≡ ok target)
unfolding reserve_target
blank_target none empty source h = cc
blank_target (some t) (err e) source h = cc
blank_target (some t) (ok empty) source h = ground (arith, eq_iff t empty)

assigned_not_reserve :
    (source : Registration) {p : Person} → require_assigned source ≡ ok p → source.reserve ≡ false
unfolding require_assigned
assigned_not_reserve source h = ground arith

two_checks : (a b : Bool) → (not a || b) ≡ false → (a ≡ true) × (b ≡ false)
two_checks a b h = ground arith

pub Returned-apply_return_to_reserve :
    (rows : List Registration) (source : Registration) (command : Command) {changes : List Change}
    → apply_return_to_reserve rows source command ≡ ok changes
    → Returned rows source command changes
unfolding apply_return_to_reserve
Returned-apply_return_to_reserve rows source command h =
    let (_, e0, h0) = >>=-eq-ok (require_editable source) _ h in
    let (p, e1, h1) = >>=-eq-ok (require_assigned source) _ h0 in
    let (_, e2, h2) = >>=-eq-ok _ _ h1 in
    let (target, e3, h3) =
      >>=-eq-ok
        (reserve_target (find_row command.target_id rows) (empty_reserve command source) source) _
        h2 in
    let (found, other, empty) = blank_target _ _ source e3 in
    let (c1, c2) = two_checks _ _ (fail_if-eq-ok _ _ e2) in
    let (b1, b2, b3) = empty_reserve_facts command source empty in
    record {
      target = target;
      found = found;
      editable = e0;
      owned = assigned_not_reserve source e1;
      accepted = c1;
      own_number = c2;
      other_row = other;
      same_event = b1;
      vacant = b2;
      no_evidence = b3;
      result = cc h3;
    }
