-- ===== src/Packet/Model/Errors.antt =====
-- The error codes of internal/packetissuance, and results that may be an error.
use chrono_desk.Prelude.{Bool, Option, false, none, refl, some, true, ◌≡◌}

pub data Code : Type 0 where
  invalid_records invalid_person invalid_command invalid_bib invalid_target : Code
  registration_not_found registration_already_exists number_already_assigned number_occupied : Code
  reason_required timing_review_required status_review_required transfer_review_required : Code
  reserve_slot missing_person race_change_requires_unnumbered person_identity_reused : Code
  target_not_available correction_review_required : Code
  invalid invalid_operation invalid_operation_batch invalid_operation_changes : Code
  invalid_operation_command invalid_bootstrap invalid_feed_response : Code

pub data Result {ℓ} (A : Type ℓ) : Type ℓ where
  err : Code → Result A
  ok : A → Result A

infixl 5 ◌>>◌ ◌>>=◌
abbrev pub ◌>>=◌ {ℓ κ} : {A : Type ℓ} {B : Type κ} → Result A → (A → Result B) → Result B
err code >>= rest = err code
ok value >>= rest = rest value

-- `if test { return nil, errors.New(code) }`
abbrev pub fail_if : Bool → Code → Result (Unit {0})
fail_if true code = err code
fail_if false code = ok tt

-- The statement after such a test.
abbrev pub ◌>>◌ {ℓ} : {B : Type ℓ} → Result (Unit {0}) → Result B → Result B
test >> rest = test >>= λ _. rest

abbrev pub or_fail {ℓ} : {A : Type ℓ} → Option A → Code → Result A
or_fail none e = err e
or_fail (some a) e = ok a

abbrev pub is_err {ℓ} : {A : Type ℓ} → Result A → Bool
is_err (ok a) = false
is_err (err e) = true

-- Inversion of a bind that succeeds.
pub >>=-eq-ok {ℓ κ} :
    {B : Type κ} {A : Type ℓ} (first : Result A) (rest : A → Result B) {result : B}
    → (first >>= rest) ≡ ok result
    → (value : A) × (first ≡ ok value) × (rest value ≡ ok result)
>>=-eq-ok (err code) rest h = cc
>>=-eq-ok (ok value) rest h = (value, refl, h)

pub >>-eq-ok {ℓ} :
    {B : Type ℓ} (m : Result (Unit {0})) (k : Result B) {b : B}
    → (m >> k) ≡ ok b
    → (m ≡ ok tt) × (k ≡ ok b)
>>-eq-ok (ok tt) k h = (refl, h)
>>-eq-ok (err e) k h = cc

pub ok-injective {ℓ} : {A : Type ℓ} {a b : A} → ok a ≡ ok b → a ≡ b
ok-injective h = cc

pub fail_if-eq-ok : (b : Bool) (e : Code) {u : Unit {0}} → fail_if b e ≡ ok u → b ≡ false
fail_if-eq-ok true e h = cc
fail_if-eq-ok false e h = refl

pub or_fail-eq-ok {ℓ} :
    {A : Type ℓ} (o : Option A) (e : Code) {a : A} → or_fail o e ≡ ok a → o ≡ some a
or_fail-eq-ok none e h = cc
or_fail-eq-ok (some a) e h = cc
