-- ===== src/Packet/Reverse/RoundTrip.antt =====
-- Proofs on `ReverseMove` after `Apply` (internal/packetissuance/transitions.go).
use chrono_desk.Packet.Rows.Lookup.{find_row-id}
use chrono_desk.Packet.Apply.Validity.{apply-IsValid}
use chrono_desk.Text.Chars.{valid_reason}
use chrono_desk.Packet.Moves.Replay.{apply_move_again}
use chrono_desk.Packet.Moves.Outcome.{Moved, Moved-apply_move}
use chrono_desk.Packet.Moves.{apply_move, vacate}
use chrono_desk.Packet.Reverse.Flags.{KeepsRow, Recognised, Recognised-vacate}
use chrono_desk.Packet.Validate.{validate_registration, require_editable}
use chrono_desk.Packet.Reverse.{
  reverse_one, may_reverse, reverse_all, current_rows, empty_source, legacy_source, release_source,
  replayed_command, replays_as, reverse_pair, reverse_move,
}
use chrono_desk.Prelude.{
  List, String, [], arith, false, some, ◌∷◌, ◌≡◌, true, not, refl, ◌&&◌, Bool, ◌||◌, ◌∙◌, ◌⊎◌, inl,
  inr, subst, sym,
}
use chrono_desk.Prelude.Classes.{list_eq, string_eq, bool_eq, option_eq, eq_iff, eq_refl, ◌==◌}
use chrono_desk.Packet.Model.{
  registration_eq, status_eq, change_eq, Registration, ok, Change, Command, CommandType, move_race,
  move_to_reserve, >>=-eq-ok, or_fail, registration_not_found,
}
use chrono_desk.Packet.Apply.{apply, transition}
use chrono_desk.Packet.Rows.{change, find_row, index_rows}

-- Two valid rows with different ids are indexed, and each is found.
index_two :
    (s t : Registration)
    → validate_registration s ≡ ok tt
    → validate_registration t ≡ ok tt
    → (s.id == t.id) ≡ false
    → index_rows [] (s ∷ t ∷ []) ≡ ok (t ∷ s ∷ [])
unfolding index_rows
index_two s t v w d = ground arith

find_first : (s t : Registration) → find_row s.id (s ∷ t ∷ []) ≡ some s
unfolding find_row
find_first s t = ground (arith, eq_refl s.id)

find_second : (s t : Registration) → (s.id == t.id) ≡ false → find_row t.id (s ∷ t ∷ []) ≡ some t
unfolding find_row
find_second s t d = ground (arith, eq_refl t.id)

eq_sym_false : (a b : String) → (a == b) ≡ false → (b == a) ≡ false
eq_sym_false a b h = ground (arith, eq_iff a b, eq_iff b a)

may_reverse_again :
    (before after : Registration)
    → after.has_timing_evidence ≡ false
    → after.id ≡ before.id
    → after.event_id ≡ before.event_id
    → after.race_id ≡ before.race_id
    → after.bib ≡ before.bib
    → after.epc ≡ before.epc
    → may_reverse after (change before after) ≡ true
unfolding may_reverse
may_reverse_again before after e0 e1 e2 e3 e4 e5 = ground (
  arith,
  eq_refl after,
  eq_iff after.id before.id,
  eq_iff after.event_id before.event_id,
  eq_iff after.race_id before.race_id,
  eq_iff after.bib before.bib,
  eq_iff after.epc before.epc,
)

-- A row that the move left as it is now may get its old image back.
reverse_one-change :
    (rows : List Registration) (before after : Registration)
    → find_row before.id rows ≡ some after
    → after.has_timing_evidence ≡ false
    → after.id ≡ before.id
    → after.event_id ≡ before.event_id
    → after.race_id ≡ before.race_id
    → after.bib ≡ before.bib
    → after.epc ≡ before.epc
    → reverse_one rows (change before after) ≡ ok (change after before)
unfolding reverse_one
reverse_one-change rows before after f e0 e1 e2 e3 e4 e5 =
    rw (f, may_reverse_again before after e0 e1 e2 e3 e4 e5)

reverse_all-pair :
    (rows : List Registration) (a b : Change) {x y : Change}
    → reverse_one rows a ≡ ok x
    → reverse_one rows b ≡ ok y
    → reverse_all rows (a ∷ b ∷ []) ≡ ok (x ∷ y ∷ [])
unfolding reverse_all
reverse_all-pair rows a b e f = simp (e, f)

transition-move :
    (type : CommandType) (records rows : List Registration) (source : Registration)
    (command : Command)
    → KeepsRow type
    → transition type records rows source command ≡ apply_move rows source command
unfolding transition
transition-move move_race records rows source command k = refl
transition-move move_to_reserve records rows source command k = refl
transition-move _ records rows source command k = elim k [ ]

reverse_pair-eq :
    (records rows : List Registration) (a b : Change) {xs : List Change}
    → (not (release_source a.after)
        && not (empty_source a.after)
        && not (legacy_source a.after b.registration_id))
      ≡ false
    → b.before.reserve ≡ true
    → (a.registration_id == b.registration_id) ≡ false
    → apply (a.before ∷ b.before ∷ []) (replayed_command a b) ≡ ok (a ∷ b ∷ [])
    → current_rows [] records ≡ ok rows
    → reverse_all rows (a ∷ b ∷ []) ≡ ok xs
    → reverse_pair records a b ≡ ok xs
unfolding reverse_pair
reverse_pair-eq records rows a b e1 e2 e3 e4 e5 e6 =
    simp (e1, e2, e3, e4, replays_as, eq_refl (a ∷ b ∷ []), e5, e6)

-- The replay of a move on its two original rows alone has the same result.
apply-replay :
    (source target : Registration) (again : Command) {changes : List Change}
    → validate_registration source ≡ ok tt
    → validate_registration target ≡ ok tt
    → (source.id == target.id) ≡ false
    → KeepsRow again.type
    → again.registration_id ≡ source.id
    → apply_move (target ∷ source ∷ []) source again ≡ ok changes
    → apply (source ∷ target ∷ []) again ≡ ok changes
unfolding apply
apply-replay source target again v w d k e h = simp (
  index_two source target v w d,
  e,
  find_second target source (eq_sym_false source.id target.id d),
  transition-move again.type (source ∷ target ∷ []) (target ∷ source ∷ []) source again k,
  h,
)

or_false : (a b c : Bool) → a ≡ false → b ≡ true → c ≡ false → (a || not b || c) ≡ false
or_false a b c e f g = ground arith

-- The replayed command moves the two original rows in the same way.
move_again :
    (moved : List Registration) (source : Registration) (command again : Command)
    {changes : List Change} (m : Moved moved source command changes)
    → again.type ≡ command.type
    → again.target_id ≡ m.target.id
    → again.issue_packet ≡ some (m.issued)
    → vacate command.type source m.target again ≡ ok (m.after)
    → (source.id == m.target.id) ≡ false
    → apply_move (m.target ∷ source ∷ []) source again
      ≡ ok (
          change source m.after
          ∷ change m.target
              (record (m.target) { person = source.person; reserve = false; issued = m.issued })
          ∷ [])
move_again moved source command again m t i p l d =
    apply_move_again (m.target ∷ source ∷ []) source m.target m.after m.person m.issued again
      m.editable m.owned m.has_person (rw i (find_first m.target source)) p
      (rw (i, t) (or_false _ _ _ (eq_sym_false source.id m.target.id d) m.same_event m.other_race))
      (rw t m.numbered) m.free m.not_issued m.no_evidence m.target_registered m.not_transferred
      (simp t l)

no_evidence_editable :
    (source : Registration) → require_editable source ≡ ok tt → source.has_timing_evidence ≡ false
unfolding require_editable
no_evidence_editable source h = ground arith

-- The move and its correction, for the two rows of the move.
reverse_pair-Moved :
    (moved current rows : List Registration) (source : Registration) (command : Command)
    {changes : List Change} (m : Moved moved source command changes)
    → KeepsRow command.type
    → validate_registration source ≡ ok tt
    → validate_registration (m.target) ≡ ok tt
    → (source.id == m.target.id) ≡ false
    → let received = record (m.target) {
      person = source.person;
      reserve = false;
      issued = m.issued;
    } in
      current_rows [] current ≡ ok rows
      → find_row source.id rows ≡ some (m.after)
      → find_row m.target.id rows ≡ some received
      → reverse_pair current (change source m.after) (change m.target received)
        ≡ ok (change m.after source ∷ change received m.target ∷ [])
unfolding replayed_command
reverse_pair-Moved moved current rows source command m k v w d e f g =
    let received : Registration = record (m.target) {
      person = source.person;
      reserve = false;
      issued = m.issued;
    } in
    let a : Change = change source m.after in
    let b : Change = change m.target received in
    let again : Command = replayed_command a b in
    let r : Recognised command.type source m.target m.after again =
      Recognised-vacate command.type source m.target m.after command again m.person k m.has_person
        m.owned m.left in
    let replayed : apply (source ∷ m.target ∷ []) again ≡ ok (a ∷ b ∷ []) =
      apply-replay source m.target again v w d (rw r.kind k) refl
        (move_again moved source command again m r.kind refl refl r.same_left d) in
    reverse_pair-eq current rows a b r.form m.free d replayed e (
      reverse_all-pair rows a b
        (reverse_one-change rows source m.after f
          (r.same_evidence ∙ no_evidence_editable source m.editable) r.same_id r.same_event
          r.same_race r.same_bib r.same_epc)
        (reverse_one-change rows m.target received g m.no_evidence refl refl refl refl refl))

two_changes : (a b c d : Change) → a ∷ b ∷ [] ≡ c ∷ d ∷ [] → (a ≡ c) × (b ≡ d)
two_changes a b c d e = (cc, cc)

kept_row_type : (type : CommandType) → (type ≡ move_race) ⊎ (type ≡ move_to_reserve) → KeepsRow type
kept_row_type type (inl e) = rw e tt
kept_row_type type (inr e) = rw e tt

reverse_move-pair :
    (current : List Registration) (reason : String) (c d a b : Change)
    → c ≡ a
    → d ≡ b
    → valid_reason reason ≡ true
    → reverse_pair current a b ≡ ok (change a.after a.before ∷ change b.after b.before ∷ [])
    → reverse_move current (c ∷ d ∷ []) reason
      ≡ ok (change c.after c.before ∷ change d.after d.before ∷ [])
unfolding reverse_move
reverse_move-pair current reason c d a b p q good h = rw (p, q, good) h

different_rows :
    (source target : Registration) (id : String)
    → target.id ≡ id
    → (id == source.id) ≡ false
    → (source.id == target.id) ≡ false
different_rows source target id e h = rw e (eq_sym_false id source.id h)

-- Take a move to another race or to the reserve that `Apply` has made, and the current rows, each
-- of them valid, where the two moved rows are still as the move left them. `ReverseMove` with a
-- reason succeeds, and its changes give both rows the images that they had before the move.
pub reverse_move-apply :
    (records current rows : List Registration) (command : Command) (reason : String) (c d : Change)
    → (command.type ≡ move_race) ⊎ (command.type ≡ move_to_reserve)
    → apply records command ≡ ok (c ∷ d ∷ [])
    → current_rows [] current ≡ ok rows
    → find_row c.registration_id rows ≡ some (c.after)
    → find_row d.registration_id rows ≡ some (d.after)
    → valid_reason reason ≡ true
    → reverse_move current (c ∷ d ∷ []) reason
      ≡ ok (change c.after c.before ∷ change d.after d.before ∷ [])
unfolding apply
reverse_move-apply records current rows command reason c d t h e f g good =
    let valid = apply-IsValid records command h in
    let k = kept_row_type command.type t in
    let (indexed, e0, h0) = >>=-eq-ok (index_rows [] records) _ h in
    let (source, e1, h1) =
      >>=-eq-ok (or_fail (find_row command.registration_id indexed) registration_not_found) _ h0 in
    let m =
      Moved-apply_move indexed source command
        (sym (transition-move command.type records indexed source command k) ∙ h1) in
    let (p, q) = two_changes c d _ _ m.result in
    reverse_move-pair current reason c d _ _ p q good (
      reverse_pair-Moved indexed current rows source command m k
        (subst (λ x. validate_registration x.before ≡ ok tt) p valid.0.0)
        (subst (λ x. validate_registration x.before ≡ ok tt) q valid.1.0.0)
        (different_rows source m.target command.target_id
          (find_row-id command.target_id indexed m.found) m.other_row)
        e (subst (λ x. find_row x.registration_id rows ≡ some x.after) p f)
        (subst (λ x. find_row x.registration_id rows ≡ some x.after) q g))
