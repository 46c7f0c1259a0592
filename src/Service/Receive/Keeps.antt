-- ===== src/Service/Receive/Keeps.antt =====
-- Statements that leave the journal of operations and the scopes as they are, and which of the receiver's do
-- (internal/service/packet_issuance.go, packet_issuance_numbers.go, packet_issuance_return.go).
pub mod Writes
use chrono_desk.Text.Decimal.{ℤ}
use chrono_desk.Service.Categories.{
  resolve_category_id, resolve_category_id_for_member, resolve_for, with_profile,
}
use chrono_desk.Store.Registrations.{
  insert_packet_registration, put_packet_registration, get_all, get_one, get_packet_registrations,
  packet_timing_evidence, with_evidence,
}
use chrono_desk.Packet.Model.{Registration}
use chrono_desk.Text.Date.{Date}
use chrono_desk.Prelude.{
  Bool, Option, String, false, none, refl, some, true, ◌∙◌, ◌≡◌, List, [], ◌∷◌,
}
use chrono_desk.Store.Members.{get_member, get_race, get_event, restore_packet_rfid, upsert_member}
use chrono_desk.Store.Tables.{Tables, MemberRow}
use chrono_desk.Store.Db.{
  Db, Failure, attempt, done, execute, or_raise, query, raise_if, ◌>>=◌, Run, constraint, failed,
  message, no_rows, recover, resume, state_of, branch,
}

unfoldable pub IsSameJournal : Tables → Tables → Type 0
IsSameJournal s t = (t.operations ≡ s.operations) × (t.scopes ≡ s.scopes)

pub same_journal : (s : Tables) → IsSameJournal s s
unfolding IsSameJournal
same_journal s = (refl, refl)

pub IsSameJournal-trans :
    (s t u : Tables) → IsSameJournal s t → IsSameJournal t u → IsSameJournal s u
unfolding IsSameJournal
IsSameJournal-trans s t u (i, j) (i2, j2) = (i2 ∙ i, j2 ∙ j)

-- After a failure too.
unfoldable pub Keeps : {A : Type 0} → Db Tables A → Type 0
unfolding IsSameJournal
Keeps m = (s : Tables) → IsSameJournal s (state_of (m s))

module _ {A : Type 0} where
  pub Keeps-pure : (a : A) → Keeps (λ s. done a s)
  unfolding Keeps
  Keeps-pure a s = same_journal s

  pub Keeps-query : (f : Tables → A) → Keeps (query f)
  unfolding Keeps
  Keeps-query f s = same_journal s

  pub Keeps-or_raise : (o : Option A) (e : Failure) → Keeps (or_raise {S = Tables} o e)
  unfolding Keeps or_raise
  Keeps-or_raise none e s = same_journal s
  Keeps-or_raise (some a) e s = same_journal s

  same_resume :
      {B : Type 0} (s : Tables) (r : Run Tables A) (k : A → Db Tables B)
      → IsSameJournal s (state_of r)
      → ((a : A) → Keeps (k a))
      → IsSameJournal s (state_of (resume r k))
  unfolding Keeps resume
  same_resume s (failed e t) k p q = p
  same_resume s (done a t) k p q = IsSameJournal-trans s t (state_of (k a t)) p (q a t)

  pub Keeps-bind :
      {B : Type 0} (m : Db Tables A) (k : A → Db Tables B)
      → Keeps m
      → ((a : A) → Keeps (k a))
      → Keeps (m >>= k)
  unfolding Keeps
  Keeps-bind m k p q s = same_resume s (m s) k (p s) q

  same_recover :
      (s : Tables) (r : Run Tables A)
      → IsSameJournal s (state_of r)
      → IsSameJournal s (state_of (recover r))
  unfolding recover
  same_recover s (failed no_rows t) p = p
  same_recover s (failed constraint t) p = p
  same_recover s (failed (message e) t) p = p
  same_recover s (done a t) p = p

  pub Keeps-attempt : (m : Db Tables A) → Keeps m → Keeps (attempt m)
  unfolding Keeps
  Keeps-attempt m p s = same_recover s (m s) (p s)

  pub Keeps-branch : (b : Bool) (x y : Db Tables A) → Keeps x → Keeps y → Keeps (branch b x y)
  unfolding Keeps branch
  Keeps-branch true x y p q s = p s
  Keeps-branch false x y p q s = q s

pub Keeps-raise_if : (b : Bool) (e : Failure) → Keeps (raise_if {S = Tables} b e)
unfolding Keeps raise_if
Keeps-raise_if true e s = same_journal s
Keeps-raise_if false e s = same_journal s

pub Keeps-execute :
    (f : Tables → Tables) → ((s : Tables) → IsSameJournal s (f s)) → Keeps (execute f)
unfolding Keeps
Keeps-execute f p s = p s

-- Found rows.
pub Keeps-found :
    {A : Type 0} (f : Tables → Option A) (e : Failure)
    → Keeps (query f >>= λ found. or_raise found e)
Keeps-found f e = Keeps-bind _ _ (Keeps-query f) (λ o. Keeps-or_raise o e)

pub Keeps-get_race : (id : String) → Keeps (get_race id)
unfolding get_race
Keeps-get_race id = Keeps-found _ _

pub Keeps-get_member : (id : String) → Keeps (get_member id)
unfolding get_member
Keeps-get_member id = Keeps-found _ _

pub Keeps-get_event : (id : String) → Keeps (get_event id)
unfolding get_event
Keeps-get_event id = Keeps-found _ _

pub Keeps-resolve_category_id_for_member :
    (age_on : Date → Date → Bool → ℤ) (m : MemberRow)
    → Keeps (resolve_category_id_for_member age_on m)
unfolding resolve_category_id_for_member resolve_for resolve_category_id with_profile
Keeps-resolve_category_id_for_member age_on m = profile m.gender m.dob
  where
    resolved : (gender dob : String) → Keeps (resolve_for age_on m gender dob)
    resolved gender dob = Keeps-bind _ _ (Keeps-get_race _) λ race.
        Keeps-bind _ _ (Keeps-get_event _) λ event. Keeps-bind _ _ (Keeps-query _) λ categories.
          Keeps-bind _ _ (Keeps-or_raise _ _)
            λ birth. Keeps-bind _ _ (Keeps-or_raise _ _) λ date. Keeps-pure _

    profile : (gender dob : Option String) → Keeps (with_profile age_on m gender dob)
    profile (some gender) (some dob) = Keeps-branch _ _ _ (Keeps-pure _) (resolved gender dob)
    profile none dob = Keeps-pure _
    profile (some gender) none = Keeps-pure _

pub Keeps-put_packet_registration :
    (row : Registration) (heads : List String) (category : Option String)
    → Keeps (put_packet_registration row heads category)
unfolding put_packet_registration IsSameJournal
Keeps-put_packet_registration row heads category =
    Keeps-bind _ _ (Keeps-execute _ (λ s. (refl, refl))) λ u.
      Keeps-bind _ _ (Keeps-query _) λ known. Keeps-bind _ _ (Keeps-query _) λ exists.
        Keeps-bind _ _ (Keeps-raise_if _ _)
          λ u. Keeps-bind _ _ (Keeps-raise_if _ _) λ u. Keeps-execute _ (λ s. (refl, refl))

pub Keeps-insert_packet_registration :
    (row : Registration) (heads : List String) (category : Option String)
    → Keeps (insert_packet_registration row heads category)
unfolding insert_packet_registration upsert_member IsSameJournal
Keeps-insert_packet_registration row heads category =
    Keeps-bind _ _
      (Keeps-bind _ _ (Keeps-query _)
        λ known. Keeps-bind _ _ (Keeps-raise_if _ _) λ u. Keeps-execute _ (λ s. (refl, refl)))
      λ u.
        Keeps-bind _ _ (Keeps-query _)
          λ taken. Keeps-bind _ _ (Keeps-raise_if _ _) λ u. Keeps-execute _ (λ s. (refl, refl))

pub Keeps-restore_packet_rfid :
    (id : String) (rfid : Option String) → Keeps (restore_packet_rfid id rfid)
unfolding restore_packet_rfid IsSameJournal
Keeps-restore_packet_rfid id rfid = Keeps-execute _ (λ s. (refl, refl))

Keeps-with_evidence : (value : Registration) → Keeps (with_evidence value)
unfolding with_evidence packet_timing_evidence
Keeps-with_evidence value =
    Keeps-bind _ _
      (Keeps-bind _ _ (Keeps-query _)
        λ found. Keeps-bind _ _ (Keeps-or_raise _ _) λ m. Keeps-query _)
      λ evidence. Keeps-pure _

Keeps-get_all : (event : String) (ids : List String) → Keeps (get_all event ids)
unfolding get_all get_one
Keeps-get_all event [] = Keeps-pure _
Keeps-get_all event (id ∷ ids) =
    Keeps-bind _ _
      (Keeps-bind _ _ (Keeps-query _)
        λ found. Keeps-bind _ _ (Keeps-or_raise _ _) λ value. Keeps-with_evidence value)
      λ row. Keeps-bind _ _ (Keeps-get_all event ids) λ rows. Keeps-pure _

pub Keeps-get_packet_registrations :
    (event : String) (ids : List String) → Keeps (get_packet_registrations event ids)
unfolding get_packet_registrations
Keeps-get_packet_registrations event ids =
    Keeps-bind _ _ (Keeps-raise_if _ _) λ u. Keeps-get_all event ids
