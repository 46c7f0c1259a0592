-- ===== src/Packet/Model/Equal.antt =====
-- `reflect.DeepEqual` on rows and changes, as internal/packetissuance/validation.go uses it.
use chrono_desk.Prelude.{Bool, and_parts, arith, false, true, ◌&&◌, ◌↔◌, ◌≡◌}
use chrono_desk.Prelude.Classes.{bool_eq, string_eq, option_eq, Equality, eq_iff, ◌==◌, eq_refl}
use chrono_desk.Packet.Model.Records.{
  Status, registered, dns, dnf, dsq, other_status, Person, Registration, Change,
}

abbrev status_beq : Status → Status → Bool
status_beq registered registered = true
status_beq dns dns = true
status_beq dnf dnf = true
status_beq dsq dsq = true
status_beq (other_status s) (other_status t) = s == t
status_beq _ _ = false

pub status_beq_iff : (a b : Status) → (status_beq a b ≡ true) ↔ (a ≡ b)
status_beq_iff (other_status s) (other_status t) = ground (arith, eq_iff s t)
status_beq_iff registered b = ground arith
status_beq_iff dns b = ground arith
status_beq_iff dnf b = ground arith
status_beq_iff dsq b = ground arith
status_beq_iff a b = ground arith

instance abbrev pub status_eq : Equality Status
status_eq = record { equals = status_beq; equal_means = status_beq_iff }

unfoldable pub person_beq : Person → Person → Bool
person_beq a b =
    a.id == b.id
    && a.first_name == b.first_name
    && a.last_name == b.last_name
    && a.birth_date == b.birth_date
    && a.gender == b.gender
    && a.team == b.team
    && a.city == b.city

pub person_beq_iff : (a b : Person) → (person_beq a b ≡ true) ↔ (a ≡ b)
unfolding person_beq
person_beq_iff a b = ground (
  arith,
  eq_iff a.id b.id,
  eq_iff a.first_name b.first_name,
  eq_iff a.last_name b.last_name,
  eq_iff a.birth_date b.birth_date,
  eq_iff a.gender b.gender,
  eq_iff a.team b.team,
  eq_iff a.city b.city,
)

instance abbrev pub person_eq : Equality Person
person_eq = record { equals = person_beq; equal_means = person_beq_iff }

-- `equalRegistration` of validation.go: `reflect.DeepEqual` compares field by field, through
-- pointers.
unfoldable pub equal_registration : Registration → Registration → Bool
equal_registration a b =
    a.id == b.id
    && a.event_id == b.event_id
    && a.race_id == b.race_id
    && a.bib == b.bib
    && a.epc == b.epc
    && a.person == b.person
    && a.reserve == b.reserve
    && a.issued == b.issued
    && a.status == b.status
    && a.transferred_to == b.transferred_to
    && a.has_timing_evidence == b.has_timing_evidence

equal_registration_refl : (a : Registration) → equal_registration a a ≡ true
unfolding equal_registration
equal_registration_refl a = simp eq_refl

registration_path :
    (a b : Registration)
    → a.id ≡ b.id
    → a.event_id ≡ b.event_id
    → a.race_id ≡ b.race_id
    → a.bib ≡ b.bib
    → a.epc ≡ b.epc
    → a.person ≡ b.person
    → a.reserve ≡ b.reserve
    → a.issued ≡ b.issued
    → a.status ≡ b.status
    → a.transferred_to ≡ b.transferred_to
    → a.has_timing_evidence ≡ b.has_timing_evidence
    → a ≡ b
registration_path a b p1 p2 p3 p4 p5 p6 p7 p8 p9 p10 p11 = cc

eq_of_equal_registration : (a b : Registration) → equal_registration a b ≡ true → a ≡ b
unfolding equal_registration
eq_of_equal_registration a b h =
    let (r10, h11) = and_parts _ _ h in
    let (r9, h10) = and_parts _ _ r10 in
    let (r8, h9) = and_parts _ _ r9 in
    let (r7, h8) = and_parts _ _ r8 in
    let (r6, h7) = and_parts _ _ r7 in
    let (r5, h6) = and_parts _ _ r6 in
    let (r4, h5) = and_parts _ _ r5 in
    let (r3, h4) = and_parts _ _ r4 in
    let (r2, h3) = and_parts _ _ r3 in
    let (h1, h2) = and_parts _ _ r2 in
    registration_path a b ((eq_iff a.id b.id).0 h1) ((eq_iff a.event_id b.event_id).0 h2)
      ((eq_iff a.race_id b.race_id).0 h3) ((eq_iff a.bib b.bib).0 h4) ((eq_iff a.epc b.epc).0 h5)
      ((eq_iff a.person b.person).0 h6) ((eq_iff a.reserve b.reserve).0 h7)
      ((eq_iff a.issued b.issued).0 h8) ((eq_iff a.status b.status).0 h9)
      ((eq_iff a.transferred_to b.transferred_to).0 h10)
      ((eq_iff a.has_timing_evidence b.has_timing_evidence).0 h11)

pub equal_registration_iff : (a b : Registration) → (equal_registration a b ≡ true) ↔ (a ≡ b)
equal_registration_iff a b = (eq_of_equal_registration a b, λ e. rw e (equal_registration_refl b))

instance abbrev pub registration_eq : Equality Registration
registration_eq = record { equals = equal_registration; equal_means = equal_registration_iff }

-- `equalChange` and `equalChanges` of validation.go.
abbrev pub equal_change : Change → Change → Bool
equal_change a b =
    a.registration_id == b.registration_id && a.before == b.before && a.after == b.after

pub equal_change_iff : (a b : Change) → (equal_change a b ≡ true) ↔ (a ≡ b)
equal_change_iff a b = ground (
  arith,
  eq_iff a.registration_id b.registration_id,
  eq_iff a.before b.before,
  eq_iff a.after b.after,
)

instance abbrev pub change_eq : Equality Change
change_eq = record { equals = equal_change; equal_means = equal_change_iff }
