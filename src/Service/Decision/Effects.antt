-- ===== src/Service/Decision/Effects.antt =====
-- What `recursiveEffect` of internal/service/packet_issuance.go says of two changes of a row, field by field.
use chrono_desk.Service.Decision.Shapes.{SameShape-person_value}
use chrono_desk.Service.Decision.{optional_string, person_value, status_text}
use chrono_desk.Service.Decision.Replay.{distinct_keys-person_value}
use chrono_desk.Service.ThreeWay.{effect_fields, deep_equal, recursive_effect, same_keys}
use chrono_desk.Packet.Json.{Fields, end, get, string, boolean, object, null, Value}
use chrono_desk.Service.ThreeWay.Unchanged.{deep_equal-SameShape}
use chrono_desk.Packet.Model.{Person, Registration}
use chrono_desk.Prelude.{
  Bool, Option, String, ap, false, if◌then◌else◌, inl, inr, none, refl, some, sym, true, ◌&&◌, ◌||◌,
  ◌∙◌, ◌≡◌, ◌⊎◌,
}
use chrono_desk.Prelude.Classes.{string_eq, bool_eq, nat_eq, ◌==◌, eq_iff, Equality}

-- The change from `actual_before` to `actual_after` does to a value what the one from `before` to `after`
-- announces: a value that the announced change leaves is left, and any other ends as announced, from the
-- announced value before, or from the one after.
unfoldable pub Effect : {A : Type 0} → A → A → A → A → Type 0
Effect before after actual_before actual_after =
    ((before ≡ after) × (actual_before ≡ actual_after))
    ⊎ ((actual_after ≡ after) × ((actual_before ≡ before) ⊎ (actual_before ≡ after)))

-- A person who is there in all four rows is compared field by field.
unfoldable pub PersonEffect : Option Person → Option Person → Option Person → Option Person → Type 0
unfolding Effect
PersonEffect (some b) (some a) (some ab) (some aa) =
    Effect b.id a.id ab.id aa.id
    × Effect b.first_name a.first_name ab.first_name aa.first_name
    × Effect b.last_name a.last_name ab.last_name aa.last_name
    × Effect b.birth_date a.birth_date ab.birth_date aa.birth_date
    × Effect b.gender a.gender ab.gender aa.gender
    × Effect b.team a.team ab.team aa.team
    × Effect b.city a.city ab.city aa.city
PersonEffect b a ab aa = Effect b a ab aa

unfoldable pub RowEffect : Registration → Registration → Registration → Registration → Type 0
unfolding Effect PersonEffect
RowEffect b a ab aa =
    Effect b.id a.id ab.id aa.id
    × Effect b.event_id a.event_id ab.event_id aa.event_id
    × Effect b.race_id a.race_id ab.race_id aa.race_id
    × Effect b.bib a.bib ab.bib aa.bib
    × Effect b.epc a.epc ab.epc aa.epc
    × PersonEffect b.person a.person ab.person aa.person
    × Effect b.reserve a.reserve ab.reserve aa.reserve
    × Effect b.issued a.issued ab.issued aa.issued
    × Effect (status_text b.status) (status_text a.status) (status_text ab.status)
        (status_text aa.status)
    × Effect b.transferred_to a.transferred_to ab.transferred_to aa.transferred_to
    × Effect b.has_timing_evidence a.has_timing_evidence ab.has_timing_evidence
        aa.has_timing_evidence

effect_parts :
    (x y z u v : Bool)
    → (if x then y else (z && (u || v))) ≡ true
    → ((x ≡ true) × (y ≡ true)) ⊎ ((z ≡ true) × ((u ≡ true) ⊎ (v ≡ true)))
effect_parts true y z u v h = inl (refl, h)
effect_parts false y true true v h = inr (refl, inl refl)
effect_parts false y true false true h = inr (refl, inr refl)
effect_parts false y true false false h = cc
effect_parts false y false u v h = cc

choice_parts :
    (x y s f g : Bool)
    → s ≡ true
    → (if x then y else if s then f else g) ≡ true
    → ((x ≡ true) × (y ≡ true)) ⊎ (f ≡ true)
choice_parts true y s f g p h = inl (refl, h)
choice_parts false y true f g p h = inr h
choice_parts false y false f g p h = cc

abbrev pub pieces : Value → Fields
pieces (object fields) = fields
pieces _ = end

-- Objects with the same keys are compared field by field.
pub object_parts :
    (b a ab aa : Fields)
    → (same_keys b a && same_keys b ab && same_keys b aa) ≡ true
    → recursive_effect (object b) (object a) (object ab) (object aa) ≡ true
    → ((deep_equal (object b) (object a) ≡ true) × (deep_equal (object ab) (object aa) ≡ true))
      ⊎ (effect_fields b a ab aa ≡ true)
unfolding recursive_effect
object_parts b a ab aa s h =
    choice_parts (deep_equal (object b) (object a)) (deep_equal (object ab) (object aa))
      (same_keys b a && same_keys b ab && same_keys b aa) (effect_fields b a ab aa) _ s h

-- From a test that decides the equality of the values.
pub Effect-by :
    {A : Type 0} (test : A → A → Bool)
    → ((x y : A) → test x y ≡ true → x ≡ y)
    → (b a ab aa : A)
    → (if test b a then test ab aa else (test aa a && (test ab b || test ab a))) ≡ true
    → Effect b a ab aa
unfolding Effect
Effect-by test sound b a ab aa h =
    elim (effect_parts (test b a) (test ab aa) (test aa a) (test ab b) (test ab a) h) [
      | inl (p, q) ↦ inl (sound b a p, sound ab aa q)
      | inr (p, q) ↦
          inr (sound aa a p, elim q [ inl x ↦ inl (sound ab b x) | inr x ↦ inr (sound ab a x) ])
    ]

pub Effect-eq :
    {A : Type 0} ⦃e : Equality A⦄ (b a ab aa : A)
    → (if b == a then ab == aa else (aa == a && (ab == b || ab == a))) ≡ true
    → Effect b a ab aa
Effect-eq b a ab aa h = Effect-by (λ x y. x == y) (λ x y p. (eq_iff x y).0 p) b a ab aa h

deep_equal-optional_string :
    (p q : Option String) → deep_equal (optional_string p) (optional_string q) ≡ true → p ≡ q
unfolding deep_equal
deep_equal-optional_string none none h = refl
deep_equal-optional_string none (some q) h = cc
deep_equal-optional_string (some p) none h = cc
deep_equal-optional_string (some p) (some q) h = ap some ((eq_iff p q).0 h)

pub optional_string-Effect :
    (b a ab aa : Option String)
    → recursive_effect
        (optional_string b)
        (optional_string a)
        (optional_string ab)
        (optional_string aa)
      ≡ true
    → Effect b a ab aa
unfolding recursive_effect
optional_string-Effect none a ab aa h =
    Effect-by (λ x y. deep_equal (optional_string x) (optional_string y)) deep_equal-optional_string
      none a ab aa h
optional_string-Effect (some b) a ab aa h =
    Effect-by (λ x y. deep_equal (optional_string x) (optional_string y)) deep_equal-optional_string
      (some b) a ab aa h

-- The value of a key.
unfoldable pub value_at : String → Value → Value
unfolding get
value_at key (object fields) = get key fields
value_at key _ = null

unfoldable pub text_of : Value → String
text_of (string s) = s
text_of _ = ""

unfoldable pub truth_of : Value → Bool
truth_of (boolean b) = b
truth_of _ = false

unfoldable pub person_of : Value → Option Person
unfolding get text_of
person_of (object fields) = some (record {
  id = text_of (get "id" fields);
  first_name = text_of (get "firstName" fields);
  last_name = text_of (get "lastName" fields);
  birth_date = text_of (get "birthDate" fields);
  gender = text_of (get "gender" fields);
  team = text_of (get "team" fields);
  city = text_of (get "city" fields);
})
person_of _ = none

pub person_of-person_value : (p : Option Person) → person_of (person_value p) ≡ p
unfolding person_of
person_of-person_value none = refl
person_of-person_value (some p) = refl

unfoldable pub optional_of : Value → Option String
optional_of (string s) = some s
optional_of _ = none

pub optional_of-optional_string : (s : Option String) → optional_of (optional_string s) ≡ s
unfolding optional_of
optional_of-optional_string none = refl
optional_of-optional_string (some s) = refl

pub deep_equal-person_value :
    (p q : Option Person) → deep_equal (person_value p) (person_value q) ≡ true → p ≡ q
deep_equal-person_value p q h =
    let e =
      deep_equal-SameShape (person_value p) (person_value q) (SameShape-person_value p q)
        (distinct_keys-person_value q) h in
    sym (person_of-person_value p) ∙ ap person_of e ∙ person_of-person_value q

pub Effect-both :
    {A B : Type 0} (f : A → B) (b a ab aa : A) → b ≡ a → ab ≡ aa → Effect (f b) (f a) (f ab) (f aa)
unfolding Effect
Effect-both f b a ab aa p q = inl (ap f p, ap f q)
