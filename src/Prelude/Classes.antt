-- ===== src/Prelude/Classes.antt =====
-- Boolean equality as an interface with one operator, and its instances.
use Prim.Native.Nat.{ℕ, compare, Ordering}
use Prim.Native.String.{String}
use mathlib.Core.Path.{◌≡◌, refl}
use mathlib.Core.Logic.{◌↔◌}
use mathlib.Core.Bool.{Bool, true, false, ◌&&◌}
use mathlib.Core.Option.{Option, none, some}
use mathlib.Core.List.{List, [], ◌∷◌}
use native.Mathlib.Omega.{arith}
use chrono_desk.Prelude.Lists.{any}
use chrono_desk.Prelude.Tests.{or_parts}
use text.Mathlib.Text.{◌==◌ as str_eq}
use text.Mathlib.TextEquality.{eq_iff as str_eq_iff}

pub record Equality {ℓ} (A : Type ℓ) : Type ℓ where
  pub equals : A → A → Bool
  pub equal_means : (a b : A) → (equals a b ≡ true) ↔ (a ≡ b)

infix 50 ◌==◌
abbrev pub ◌==◌ {ℓ} : {A : Type ℓ} ⦃e : Equality A⦄ → A → A → Bool
◌==◌ ⦃e⦄ = e.equals

pub eq_iff {ℓ} : {A : Type ℓ} ⦃e : Equality A⦄ (a b : A) → ((a == b) ≡ true) ↔ (a ≡ b)
eq_iff ⦃e⦄ a b = e.equal_means a b

pub eq_refl {ℓ} : {A : Type ℓ} ⦃e : Equality A⦄ (a : A) → (a == a) ≡ true
eq_refl a = (eq_iff a a).1 refl

abbrev nat_beq : ℕ → ℕ → Bool
nat_beq a b = elim (compare a b) [ Ordering.eq ↦ true | _ ↦ false ]

pub nat_beq_iff : (a b : ℕ) → (nat_beq a b ≡ true) ↔ (a ≡ b)
nat_beq_iff a b = ground arith

instance abbrev pub nat_eq : Equality ℕ
nat_eq = record { equals = nat_beq; equal_means = nat_beq_iff }

instance abbrev pub string_eq : Equality String
string_eq = record { equals = str_eq; equal_means = str_eq_iff }

abbrev bool_beq : Bool → Bool → Bool
bool_beq true b = b
bool_beq false true = false
bool_beq false false = true

pub bool_beq_iff : (a b : Bool) → (bool_beq a b ≡ true) ↔ (a ≡ b)
bool_beq_iff a b = ground arith

instance abbrev pub bool_eq : Equality Bool
bool_eq = record { equals = bool_beq; equal_means = bool_beq_iff }

abbrev option_beq {ℓ} : {A : Type ℓ} → (A → A → Bool) → Option A → Option A → Bool
option_beq f none none = true
option_beq f none (some b) = false
option_beq f (some a) none = false
option_beq f (some a) (some b) = f a b

pub option_beq_iff {ℓ} :
    {A : Type ℓ} (e : Equality A) (a b : Option A) → (option_beq e.equals a b ≡ true) ↔ (a ≡ b)
option_beq_iff e none none = ground arith
option_beq_iff e none (some b) = ground arith
option_beq_iff e (some a) none = ground arith
option_beq_iff e (some a) (some b) = ground (arith, e.equal_means a b)

instance abbrev pub option_eq {ℓ} : {A : Type ℓ} ⦃e : Equality A⦄ → Equality (Option A)
option_eq ⦃e⦄ = record { equals = option_beq e.equals; equal_means = option_beq_iff e }

abbrev list_beq {ℓ} : {A : Type ℓ} → (A → A → Bool) → List A → List A → Bool
list_beq f [] [] = true
list_beq f [] (y ∷ ys) = false
list_beq f (x ∷ xs) [] = false
list_beq f (x ∷ xs) (y ∷ ys) = f x y && list_beq f xs ys

pub list_beq_iff {ℓ} :
    {A : Type ℓ} (e : Equality A) (a b : List A) → (list_beq e.equals a b ≡ true) ↔ (a ≡ b)
list_beq_iff e [] [] = ground arith
list_beq_iff e [] (y ∷ ys) = ground arith
list_beq_iff e (x ∷ xs) [] = ground arith
list_beq_iff e (x ∷ xs) (y ∷ ys) = ground (arith, e.equal_means x y, list_beq_iff e xs ys)

instance abbrev pub list_eq {ℓ} : {A : Type ℓ} ⦃e : Equality A⦄ → Equality (List A)
list_eq ⦃e⦄ = record { equals = list_beq e.equals; equal_means = list_beq_iff e }

-- No string twice.
abbrev pub Distinct : List String → Type 0
Distinct [] = Unit
Distinct (d ∷ ds) = (any (λ x. x == d) ds ≡ false) × Distinct ds

pub equal_sym : (a b : String) → (a == b) ≡ false → (b == a) ≡ false
equal_sym a b h = ground (arith, eq_iff a b, eq_iff b a)

-- None of the strings of the second list is in the first.
abbrev pub Unseen : List String → List String → Type 0
Unseen seen [] = Unit
Unseen seen (id ∷ ids) = (any (λ s. s == id) seen ≡ false) × Unseen seen ids

pub Unseen-tail : (s : String) (seen ids : List String) → Unseen (s ∷ seen) ids → Unseen seen ids
Unseen-tail s seen [] h = tt
Unseen-tail s seen (id ∷ ids) h = ((or_parts _ _ h.0).1, Unseen-tail s seen ids h.1)

pub Unseen-head :
    (s : String) (seen ids : List String) → Unseen (s ∷ seen) ids → any (λ x. x == s) ids ≡ false
Unseen-head s seen [] h = refl
Unseen-head s seen (id ∷ ids) h = ground (arith, h.0, equal_sym s id, Unseen-head s seen ids h.1)
