-- ===== src/Store/Db.antt =====
-- Access to a database: `WithinTx` of internal/infrastructure/sqlite/store.go, and statements that read and
-- write the tables, return a value or fail. What was written before a failure stays written, unless a
-- transaction undoes it.
use chrono_desk.Prelude.{
  Bool, Option, String, false, none, refl, some, true, ◌≡◌, subst, ap, inl, inr, ◌⊎◌,
}

-- An error of a statement: `sql.ErrNoRows`, a constraint of the schema, or a text of the code.
pub data Failure : Type 0 where
  no_rows constraint : Failure
  message : String → Failure

pub data Run (S A : Type 0) : Type 0 where
  failed : Failure → S → Run S A
  done : A → S → Run S A

abbrev pub Db : Type 0 → Type 0 → Type 0
Db S A = S → Run S A

module _ {S : Type 0} where
  unfoldable pub resume : {A B : Type 0} → Run S A → (A → Db S B) → Run S B
  resume (failed e s) rest = failed e s
  resume (done a s) rest = rest a s

  abbrev pub pure : {A : Type 0} → A → Db S A
  pure a s = done a s

  abbrev pub raise : {A : Type 0} → Failure → Db S A
  raise e s = failed e s

  abbrev pub query : {A : Type 0} → (S → A) → Db S A
  query f s = done (f s) s

  abbrev pub execute : (S → S) → Db S (Unit {0})
  execute f s = done tt (f s)

  unfoldable pub raise_if : Bool → Failure → Db S (Unit {0})
  raise_if true e s = failed e s
  raise_if false e s = done tt s

  unfoldable pub or_raise : {A : Type 0} → Option A → Failure → Db S A
  or_raise none e s = failed e s
  or_raise (some a) e s = done a s

  -- `if`, on statements.
  unfoldable pub branch : {A : Type 0} → Bool → Db S A → Db S A → Db S A
  branch true x y s = x s
  branch false x y s = y s

  unfoldable pub recover : {A : Type 0} → Run S A → Run S (Option A)
  recover (failed no_rows s) = done none s
  recover (failed constraint s) = failed constraint s
  recover (failed (message e) s) = failed (message e) s
  recover (done a s) = done (some a) s

  -- `errors.Is(err, sql.ErrNoRows)` after a statement that reads: `none` if it holds.
  abbrev pub attempt : {A : Type 0} → Db S A → Db S (Option A)
  attempt body s = recover (body s)

  abbrev pub commit : {A : Type 0} → S → Run S A → Run S A
  commit before (failed e s) = failed e before
  commit before (done a s) = done a s

  -- `WithinTx` outside a transaction: the tables are as before if the function fails.
  unfoldable pub within_tx : {A : Type 0} → Db S A → Db S A
  within_tx body s = commit s (body s)

  -- The tables after a run.
  abbrev pub state_of : {A : Type 0} → Run S A → S
  state_of (failed e s) = s
  state_of (done a s) = s

infixl 5 ◌>>=◌ ◌>>◌
abbrev pub ◌>>=◌ : {S A B : Type 0} → Db S A → (A → Db S B) → Db S B
◌>>=◌ first rest s = resume (first s) rest

abbrev pub ◌>>◌ : {S B : Type 0} → Db S (Unit {0}) → Db S B → Db S B
first >> rest = first >>= λ _. rest

module _ {S : Type 0} where
  -- Inversion of a bind that is done.
  pub resume-eq-done :
      {A B : Type 0} (r : Run S A) (rest : A → Db S B) {b : B} {end : S}
      → resume r rest ≡ done b end
      → (a : A) × (s : S) × (r ≡ done a s) × (rest a s ≡ done b end)
  unfolding resume
  resume-eq-done (failed e s) rest h = cc
  resume-eq-done (done a s) rest h = (a, s, refl, h)

  pub done-injective : {A : Type 0} {a b : A} {s t : S} → done a s ≡ done b t → (a ≡ b) × (s ≡ t)
  done-injective h = (cc, cc)

  pub raise_if-eq-done :
      (b : Bool) (e : Failure) (s : S) {u : Unit {0}} {t : S}
      → raise_if b e s ≡ done u t
      → (b ≡ false) × (s ≡ t)
  unfolding raise_if
  raise_if-eq-done true e s h = cc
  raise_if-eq-done false e s h = (refl, cc)

  pub or_raise-eq-done :
      {A : Type 0} (o : Option A) (e : Failure) (s : S) {a : A} {t : S}
      → or_raise o e s ≡ done a t
      → (o ≡ some a) × (s ≡ t)
  unfolding or_raise
  or_raise-eq-done none e s h = cc
  or_raise-eq-done (some a) e s h = (cc, cc)

  pub commit-failed :
      {A : Type 0} (before : S) (r : Run S A) {e : Failure} {t : S}
      → commit before r ≡ failed e t
      → t ≡ before
  commit-failed before (failed e s) h = cc
  commit-failed before (done a s) h = cc

  pub commit-done :
      {A : Type 0} (before : S) (r : Run S A) {a : A} {t : S}
      → commit before r ≡ done a t
      → r ≡ done a t
  commit-done before (failed e s) h = cc
  commit-done before (done a s) h = h

  -- The same for the tests and for a statement whose effect on the tables is known.
  pub raise_if->>= :
      {B : Type 0} (b : Bool) (e : Failure) (s : S) (rest : Unit {0} → Db S B) {a : B} {t : S}
      → resume (raise_if b e s) rest ≡ done a t
      → (b ≡ false) × (rest tt s ≡ done a t)
  unfolding raise_if resume
  raise_if->>= true e s rest h = cc
  raise_if->>= false e s rest h = (refl, h)

  pub or_raise->>= :
      {A B : Type 0} (o : Option A) (e : Failure) (s : S) (rest : A → Db S B) {b : B} {t : S}
      → resume (or_raise o e s) rest ≡ done b t
      → (a : A) × (o ≡ some a) × (rest a s ≡ done b t)
  unfolding or_raise resume
  or_raise->>= none e s rest h = cc
  or_raise->>= (some a) e s rest h = (a, refl, h)

  pub effect->>= :
      {B : Type 0} (r : Run S (Unit {0})) (after : S) (rest : Unit {0} → Db S B) {b : B} {end : S}
      → ((t : S) → r ≡ done tt t → t ≡ after)
      → resume r rest ≡ done b end
      → rest tt after ≡ done b end
  unfolding resume
  effect->>= (failed e s) after rest f h = cc
  effect->>= (done u s) after rest {b = b} {end = end} f h =
      subst (λ x. rest tt x ≡ done b end) (f s refl) h

  -- The same, with the run itself.
  pub ran->>= :
      {B : Type 0} (r : Run S (Unit {0})) (after : S) (rest : Unit {0} → Db S B) {b : B} {end : S}
      → ((t : S) → r ≡ done tt t → t ≡ after)
      → resume r rest ≡ done b end
      → (r ≡ done tt after) × (rest tt after ≡ done b end)
  unfolding resume
  ran->>= (failed e s) after rest f h = cc
  ran->>= (done u s) after rest {b = b} {end = end} f h =
      (ap (done tt) (f s refl), subst (λ x. rest tt x ≡ done b end) (f s refl) h)

  -- A query runs on.
  pub done->>= :
      {A B : Type 0} (a : A) (s : S) (rest : A → Db S B) {b : B} {t : S}
      → resume (done a s) rest ≡ done b t
      → rest a s ≡ done b t
  unfolding resume
  done->>= a s rest h = h

  pub after_done : {A : Type 0} {a b : A} {s t : S} → done a s ≡ done b t → t ≡ s
  after_done h = cc

  -- A statement that does not change the tables.
  pub read->>= :
      {A B : Type 0} (r : Run S A) (s : S) (rest : A → Db S B) {b : B} {end : S}
      → ((a : A) (t : S) → r ≡ done a t → t ≡ s)
      → resume r rest ≡ done b end
      → (a : A) × (r ≡ done a s) × (rest a s ≡ done b end)
  unfolding resume
  read->>= (failed e t) s rest f h = cc
  read->>= (done a t) s rest {b = b} {end = end} f h =
      (a, ap (done a) (f a t refl), subst (λ x. rest a x ≡ done b end) (f a t refl) h)

  -- A bind that fails, in its first part or in its second.
  pub resume-eq-failed :
      {A B : Type 0} (r : Run S A) (rest : A → Db S B) {e : Failure} {end : S}
      → resume r rest ≡ failed e end
      → (r ≡ failed e end) ⊎ ((a : A) × (s : S) × (r ≡ done a s) × (rest a s ≡ failed e end))
  unfolding resume
  resume-eq-failed (failed e s) rest h = inl (cc)
  resume-eq-failed (done a s) rest h = inr (a, s, refl, h)
