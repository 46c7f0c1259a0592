-- ===== src/Store/Registrations.antt =====
-- The rows of registrations in internal/infrastructure/sqlite/packet_issuance_store.go: `FindPacketRegistration`,
-- `GetPacketRegistrations`, `ListPacketRegistrations`, `PutPacketRegistration`, `InsertPacketRegistration`,
-- `DeletePacketRegistration`, `packetTimingEvidence` and `packetRegistrationMember`.
use chrono_desk.Prelude.{
  Bool, List, Option, String, [], any, false, if◌then◌else◌, is_some, length, none, not, some, true,
  within, ℕ, ◌&&◌, ◌++◌, ◌||◌, ◌∷◌,
}
use chrono_desk.Store.Members.{find_member, find_race, int_beq, upsert_member}
use chrono_desk.Store.Tables.{MemberRow, RegistrationRow, Tables}
use chrono_desk.Store.Db.{
  ◌>>=◌, ◌>>◌, Db, constraint, execute, message, no_rows, or_raise, pure, query, raise_if, branch,
}
use chrono_desk.Text.Decimal.{ℤ, parse_int}
use chrono_desk.Packet.Model.{Registration, Person, Status, registered, dns, dnf, dsq, other_status}
use chrono_desk.Prelude.Classes.{string_eq, nat_eq, bool_eq, list_eq, option_eq, ◌==◌}

unfoldable pub find_registration : String → String → List RegistrationRow → Option RegistrationRow
find_registration event id [] = none
find_registration event id (r ∷ rs) =
    if r.event_id == event && r.registration_id == id then some r else find_registration event id rs

same_number : Option ℤ → ℤ → Bool
unfolding int_beq
same_number none n = false
same_number (some m) n = int_beq m n

same_epc : Option String → String → Bool
same_epc none epc = false
same_epc (some e) epc = not (e == "") && epc == e

-- The condition of `packetTimingEvidence` on a member.
unfoldable pub member_timed : Tables → MemberRow → Bool
unfolding same_number same_epc
member_timed s m =
    is_some m.finish_time_ms
    || is_some m.clean_time
    || is_some m.start_observation_id
    || (is_some m.start_time_ms && not (m.start_time_source == "race_default"))
    || any (λ id. id == m.id) s.results
    || any
        (λ l. l.event_id == m.event_id && (same_number m.number l.number || same_epc m.epc l.epc))
        s.rfid_logs

of_event : String → Option MemberRow → Option MemberRow
of_event event none = none
of_event event (some m) = if m.event_id == event then some m else none

unfoldable pub packet_timing_evidence : Registration → Db Tables Bool
unfolding member_timed find_member of_event
packet_timing_evidence row = do
  found ← query (λ s. of_event row.event_id (find_member row.id s.members))
  m ← or_raise found no_rows
  query λ s. member_timed s m

-- The value of a row with the evidence of its member.
unfoldable pub with_evidence : Registration → Db Tables Registration
unfolding packet_timing_evidence
with_evidence value = do
  evidence ← packet_timing_evidence value
  pure (record value { has_timing_evidence = value.has_timing_evidence || evidence })

-- `PacketRegistrationRecord`; `none` is a record that is not found.
pub record PacketRegistrationRecord : Type 0 where
  pub value : Registration
  pub heads : List String
  pub deleted : Bool

unfoldable pub found_record : Option RegistrationRow → Db Tables (Option PacketRegistrationRecord)
unfolding with_evidence
found_record none = pure none
found_record (some r) =
    branch r.deleted (pure (some (record { value = r.value; heads = r.heads; deleted = true }))) (do
      value ← with_evidence r.value
      pure (some (record { value = value; heads = r.heads; deleted = false })))

unfoldable pub find_packet_registration :
    String → String → Db Tables (Option PacketRegistrationRecord)
unfolding found_record find_registration
find_packet_registration event id = do
  found ← query (λ s. find_registration event id s.registrations)
  found_record found

live_value : Option RegistrationRow → Option Registration
live_value none = none
live_value (some r) = if r.deleted then none else some r.value

unfoldable pub get_one : String → String → Db Tables Registration
unfolding live_value find_registration with_evidence
get_one event id = do
  found ← query (λ s. live_value (find_registration event id s.registrations))
  value ← or_raise found no_rows
  with_evidence value

unfoldable pub get_all : String → List String → Db Tables (List Registration)
unfolding get_one
get_all event [] = pure []
get_all event (id ∷ ids) = do row ← get_one event id; rows ← get_all event ids; pure (row ∷ rows)

-- The rows in the order of the ids; the code reads them in the order of `sort.Strings`.
unfoldable pub get_packet_registrations : String → List String → Db Tables (List Registration)
unfolding get_all
get_packet_registrations event ids = do
  raise_if (not (within 1 2 (length ids)))
      (message "packet operation must affect one or two registrations")
  get_all event ids

non_empty : String → Option String
non_empty s = if s == "" then none else some s

abbrev status_number : Status → ℕ
status_number dns = 1
status_number dnf = 2
status_number dsq = 3
status_number registered = 0
status_number (other_status s) = 0

person_text : (Person → String) → Option Person → String
person_text f none = ""
person_text f (some p) = f p

-- `packetRegistrationMember`, and the columns that `PutPacketRegistration` writes.
unfoldable pub packet_registration_member : Registration → Option String → MemberRow
unfolding non_empty person_text
packet_registration_member row category = record {
  id = row.id;
  event_id = row.event_id;
  race_id = row.race_id;
  category_id = category;
  number = if row.bib == "" then none else parse_int 64 row.bib;
  epc = non_empty row.epc;
  rfid = none;
  first_name = person_text (λ p. p.first_name) row.person;
  last_name = person_text (λ p. p.last_name) row.person;
  gender = non_empty (person_text (λ p. p.gender) row.person);
  dob = non_empty (person_text (λ p. p.birth_date) row.person);
  team = non_empty (person_text (λ p. p.team) row.person);
  city = non_empty (person_text (λ p. p.city) row.person);
  status = status_number row.status;
  start_time_ms = none;
  start_time_source = "";
  start_observation_id = none;
  finish_time_ms = none;
  clean_time = none;
}

text_or_empty : Option String → String
text_or_empty none = ""
text_or_empty (some s) = s

-- The update of a member: the rfid goes if the EPC changes.
project : Registration → Option String → MemberRow → MemberRow
unfolding packet_registration_member text_or_empty
project row category m =
    let new = packet_registration_member row category in
    record m {
      race_id = new.race_id;
      first_name = new.first_name;
      last_name = new.last_name;
      gender = new.gender;
      dob = new.dob;
      team = new.team;
      city = new.city;
      status = new.status;
      category_id = category;
      number = new.number;
      rfid = if text_or_empty m.epc == row.epc then m.rfid else none;
      epc = if text_or_empty m.epc == row.epc then m.epc else new.epc;
    }

project_all : Registration → Option String → List MemberRow → List MemberRow
unfolding project
project_all row category [] = []
project_all row category (m ∷ ms) =
    if m.id == row.id && m.event_id == row.event_id
    then project row category m ∷ ms
    else m ∷ project_all row category ms

unfoldable pub set_value : Registration → List String → List RegistrationRow → List RegistrationRow
set_value row heads [] = []
set_value row heads (r ∷ rs) =
    if r.registration_id == row.id && r.event_id == row.event_id
    then record r { value = row; heads = heads; deleted = false } ∷ rs
    else r ∷ set_value row heads rs

unfoldable pub put_packet_registration :
    Registration → List String → Option String → Db Tables (Unit {0})
unfolding set_value project_all find_race
put_packet_registration row heads category = do
  execute λ s. record s { registrations = set_value row heads s.registrations }
  known ← query (λ s. is_some (find_race row.race_id s.races))
  exists ← query (λ s. any (λ m. m.id == row.id && m.event_id == row.event_id) s.members)
  raise_if (exists && not known) constraint
  raise_if (not exists) (message "packet member projection failed")
  execute λ s. record s { members = project_all row category s.members }

unfoldable pub insert_packet_registration :
    Registration → List String → Option String → Db Tables (Unit {0})
unfolding packet_registration_member upsert_member
insert_packet_registration row heads category = do
  upsert_member (packet_registration_member row category)
  taken ← query (λ s. any (λ r. r.registration_id == row.id) s.registrations)
  raise_if taken constraint
  execute λ s. record s {
    registrations =
        s.registrations
        ++ (record {
          registration_id = row.id;
          event_id = row.event_id;
          value = row;
          heads = heads;
          deleted = false;
        }
            ∷ []);
  }

set_deleted : String → String → List String → List RegistrationRow → List RegistrationRow
set_deleted event id heads [] = []
set_deleted event id heads (r ∷ rs) =
    if r.event_id == event && r.registration_id == id
    then record r { heads = heads; deleted = true } ∷ rs
    else r ∷ set_deleted event id heads rs

unfoldable pub delete_packet_registration : String → String → List String → Db Tables (Unit {0})
unfolding set_deleted find_registration
delete_packet_registration event id heads = do
  found ← query (λ s. find_registration event id s.registrations)
  raise_if (not (is_some found)) (message "packet registration projection failed")
  execute λ s. record s { registrations = set_deleted event id heads s.registrations }
