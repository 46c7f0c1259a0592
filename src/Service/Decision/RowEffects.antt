-- ===== src/Service/Decision/RowEffects.antt =====
-- What `recursiveEffect` of internal/service/packet_issuance.go says of two changes of a row, field by field: the rows.
use chrono_desk.Service.Decision.Shapes.{SameShape-packet_value}
use chrono_desk.Service.Decision.{packet_value, person_value, status_text, packet_effect_matches}
use chrono_desk.Service.Decision.Replay.{distinct_keys-packet_value}
use chrono_desk.Service.ThreeWay.{deep_equal, recursive_effect, keys_in, same_keys}
use chrono_desk.Packet.Json.{get, has_key}
use chrono_desk.Service.ThreeWay.Unchanged.{deep_equal-SameShape}
use chrono_desk.Packet.Model.{Person, Registration}
use chrono_desk.Prelude.{
  Option, ap, inl, inr, none, refl, some, sym, true, ◌∙◌, ◌≡◌, and_parts, some-injective,
}
use chrono_desk.Prelude.Classes.{string_eq, bool_eq, nat_eq}
use chrono_desk.Service.Decision.Effects.{
  Effect, PersonEffect, RowEffect, Effect-both, Effect-by, Effect-eq, deep_equal-person_value,
  object_parts, optional_of, optional_of-optional_string, optional_string-Effect, person_of,
  person_of-person_value, pieces, text_of, truth_of, value_at,
}

PersonEffect-both : (b a ab aa : Option Person) → b ≡ a → ab ≡ aa → PersonEffect b a ab aa
unfolding PersonEffect Effect
PersonEffect-both (some b) (some a) (some ab) (some aa) p q = (
  Effect-both (λ (p : Person). p.id) b a ab aa (some-injective p) (some-injective q),
  Effect-both (λ (p : Person). p.first_name) b a ab aa (some-injective p) (some-injective q),
  Effect-both (λ (p : Person). p.last_name) b a ab aa (some-injective p) (some-injective q),
  Effect-both (λ (p : Person). p.birth_date) b a ab aa (some-injective p) (some-injective q),
  Effect-both (λ (p : Person). p.gender) b a ab aa (some-injective p) (some-injective q),
  Effect-both (λ (p : Person). p.team) b a ab aa (some-injective p) (some-injective q),
  Effect-both (λ (p : Person). p.city) b a ab aa (some-injective p) (some-injective q),
)
PersonEffect-both b a ab aa p q = inl (p, q)

person_value-PersonEffect :
    (b a ab aa : Option Person)
    → recursive_effect (person_value b) (person_value a) (person_value ab) (person_value aa) ≡ true
    → PersonEffect b a ab aa
unfolding recursive_effect PersonEffect Effect same_keys keys_in has_key get deep_equal
person_value-PersonEffect (some b) (some a) (some ab) (some aa) h =
    let parts =
      object_parts (pieces (person_value (some b))) (pieces (person_value (some a)))
        (pieces (person_value (some ab))) (pieces (person_value (some aa))) refl h in
    elim parts [
      | inl (p, q) ↦
          PersonEffect-both (some b) (some a) (some ab) (some aa)
            (deep_equal-person_value (some b) (some a) p)
            (deep_equal-person_value (some ab) (some aa) q)
      | inr f ↦
          let (e0, f0) = and_parts _ _ f in
          let (e1, f1) = and_parts _ _ f0 in
          let (e2, f2) = and_parts _ _ f1 in
          let (e3, f3) = and_parts _ _ f2 in
          let (e4, f4) = and_parts _ _ f3 in
          let (e5, f5) = and_parts _ _ f4 in
          let (e6, f6) = and_parts _ _ f5 in
          (
            Effect-eq b.id a.id ab.id aa.id e0,
            Effect-eq b.first_name a.first_name ab.first_name aa.first_name e1,
            Effect-eq b.last_name a.last_name ab.last_name aa.last_name e2,
            Effect-eq b.birth_date a.birth_date ab.birth_date aa.birth_date e3,
            Effect-eq b.gender a.gender ab.gender aa.gender e4,
            Effect-eq b.team a.team ab.team aa.team e5,
            Effect-eq b.city a.city ab.city aa.city e6,
          )
    ]
person_value-PersonEffect none a ab aa h =
    Effect-by (λ x y. deep_equal (person_value x) (person_value y)) deep_equal-person_value none a
      ab aa h
person_value-PersonEffect (some b) none ab aa h =
    Effect-by (λ x y. deep_equal (person_value x) (person_value y)) deep_equal-person_value (some b)
      none ab aa h
person_value-PersonEffect (some b) (some a) none aa h =
    Effect-by (λ x y. deep_equal (person_value x) (person_value y)) deep_equal-person_value (some b)
      (some a) none aa h
person_value-PersonEffect (some b) (some a) (some ab) none h =
    Effect-by (λ x y. deep_equal (person_value x) (person_value y)) deep_equal-person_value (some b)
      (some a) (some ab) none h

person_back : (x y : Registration) → packet_value x ≡ packet_value y → x.person ≡ y.person
unfolding packet_value value_at get
person_back x y e =
    sym (person_of-person_value x.person)
    ∙ ap (λ v. person_of (value_at "person" v)) e
    ∙ person_of-person_value y.person

transferred_back :
    (x y : Registration) → packet_value x ≡ packet_value y → x.transferred_to ≡ y.transferred_to
unfolding packet_value value_at get
transferred_back x y e =
    sym (optional_of-optional_string x.transferred_to)
    ∙ ap (λ v. optional_of (value_at "transferredTo" v)) e
    ∙ optional_of-optional_string y.transferred_to

deep_equal-packet_value :
    (x y : Registration)
    → deep_equal (packet_value x) (packet_value y) ≡ true
    → packet_value x ≡ packet_value y
deep_equal-packet_value x y h =
    deep_equal-SameShape (packet_value x) (packet_value y) (SameShape-packet_value x y)
      (distinct_keys-packet_value y) h

RowEffect-both :
    (b a ab aa : Registration)
    → packet_value b ≡ packet_value a
    → packet_value ab ≡ packet_value aa
    → RowEffect b a ab aa
unfolding RowEffect Effect packet_value value_at get text_of truth_of
RowEffect-both b a ab aa p q = (
  Effect-both (λ v. text_of (value_at "id" v)) _ _ _ _ p q,
  Effect-both (λ v. text_of (value_at "eventId" v)) _ _ _ _ p q,
  Effect-both (λ v. text_of (value_at "raceId" v)) _ _ _ _ p q,
  Effect-both (λ v. text_of (value_at "bib" v)) _ _ _ _ p q,
  Effect-both (λ v. text_of (value_at "epc" v)) _ _ _ _ p q,
  PersonEffect-both _ _ _ _ (person_back b a p) (person_back ab aa q),
  Effect-both (λ v. truth_of (value_at "reserve" v)) _ _ _ _ p q,
  Effect-both (λ v. truth_of (value_at "issued" v)) _ _ _ _ p q,
  Effect-both (λ v. text_of (value_at "status" v)) _ _ _ _ p q,
  inl (transferred_back b a p, transferred_back ab aa q),
  Effect-both (λ v. truth_of (value_at "hasTimingEvidence" v)) _ _ _ _ p q,
)

-- The test of the program says that much of each field.
pub packet_effect_matches-RowEffect :
    (b a ab aa : Registration) → packet_effect_matches b a ab aa ≡ true → RowEffect b a ab aa
unfolding packet_effect_matches recursive_effect packet_value RowEffect same_keys keys_in has_key
    get deep_equal
packet_effect_matches-RowEffect b a ab aa h =
    let parts =
      object_parts (pieces (packet_value b)) (pieces (packet_value a)) (pieces (packet_value ab))
        (pieces (packet_value aa)) refl h in
    elim parts [
      | inl (p, q) ↦
          RowEffect-both b a ab aa (deep_equal-packet_value b a p) (deep_equal-packet_value ab aa q)
      | inr f ↦
          let (e0, f0) = and_parts _ _ f in
          let (e1, f1) = and_parts _ _ f0 in
          let (e2, f2) = and_parts _ _ f1 in
          let (e3, f3) = and_parts _ _ f2 in
          let (e4, f4) = and_parts _ _ f3 in
          let (e5, f5) = and_parts _ _ f4 in
          let (e6, f6) = and_parts _ _ f5 in
          let (e7, f7) = and_parts _ _ f6 in
          let (e8, f8) = and_parts _ _ f7 in
          let (e9, f9) = and_parts _ _ f8 in
          let (e10, f10) = and_parts _ _ f9 in
          (
            Effect-eq b.id a.id ab.id aa.id e0,
            Effect-eq b.event_id a.event_id ab.event_id aa.event_id e1,
            Effect-eq b.race_id a.race_id ab.race_id aa.race_id e2,
            Effect-eq b.bib a.bib ab.bib aa.bib e3,
            Effect-eq b.epc a.epc ab.epc aa.epc e4,
            person_value-PersonEffect b.person a.person ab.person aa.person e5,
            Effect-eq b.reserve a.reserve ab.reserve aa.reserve e6,
            Effect-eq b.issued a.issued ab.issued aa.issued e7,
            Effect-eq (status_text b.status) (status_text a.status) (status_text ab.status)
                (status_text aa.status) e8,
            optional_string-Effect b.transferred_to a.transferred_to ab.transferred_to
                aa.transferred_to e9,
            Effect-eq b.has_timing_evidence a.has_timing_evidence ab.has_timing_evidence
                aa.has_timing_evidence e10,
          )
    ]
