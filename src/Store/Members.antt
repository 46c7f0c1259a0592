-- ===== src/Store/Members.antt =====
-- Members and what is kept about them, as packet issuance uses them: `GetRace` and `GetMember` of
-- queries_store.go, `upsertMember` of entities_store.go, `MemberClubsForIDs` and `ApplyMemberClubs` of
-- member_clubs_store.go, `CheckPacketNumber` and `RestorePacketRFID` of packet_issuance_store.go, all in
-- internal/infrastructure/sqlite, and `NormalizeClub` of internal/domain/club.go. `CAST(? AS INTEGER)` is the number
-- that the text is, or 0. The columns of the chip start are left out.
use chrono_desk.Prelude.{
  Bool, List, Option, String, [], any, false, if◌then◌else◌, is_some, ltb, none, not, some, ℕ, ◌&&◌,
  ◌||◌, ◌∷◌,
}
use chrono_desk.Store.Tables.{ClubRow, EventRow, MemberRow, RaceRow, Tables}
use chrono_desk.Store.Db.{
  ◌>>=◌, ◌>>◌, Db, constraint, execute, message, no_rows, or_raise, pure, query, raise_if,
}
use chrono_desk.Text.Decimal.{ℤ, pos, negsuc, parse_int}
use chrono_desk.Text.Chars.{is_space, valid_text}
use Prim.Native.Char.{code}
use Prim.Native.String.{len, ◌∷◌ as char_cons}
use chrono_desk.Prelude.Classes.{string_eq, nat_eq, bool_eq, list_eq, option_eq, ◌==◌}

unfoldable pub int_beq : ℤ → ℤ → Bool
int_beq (pos m) (pos n) = m == n
int_beq (negsuc m) (negsuc n) = m == n
int_beq _ _ = false

unfoldable pub find_race : String → List RaceRow → Option RaceRow
find_race id [] = none
find_race id (r ∷ rs) = if r.id == id then some r else find_race id rs

unfoldable pub find_event : String → List EventRow → Option EventRow
find_event id [] = none
find_event id (e ∷ es) = if e.id == id then some e else find_event id es

unfoldable pub find_member : String → List MemberRow → Option MemberRow
find_member id [] = none
find_member id (m ∷ ms) = if m.id == id then some m else find_member id ms

-- `GetRace` and `GetMember`; `sql.ErrNoRows` is the failure `no_rows`.
unfoldable pub get_race : String → Db Tables RaceRow
unfolding find_race
get_race id = do found ← query (λ s. find_race id s.races); or_raise found no_rows

unfoldable pub get_event : String → Db Tables EventRow
unfolding find_event
get_event id = do found ← query (λ s. find_event id s.events); or_raise found no_rows

unfoldable pub get_member : String → Db Tables MemberRow
unfolding find_member
get_member id = do found ← query (λ s. find_member id s.members); or_raise found no_rows

start_source : Option ℕ → Option ℕ → String → String
start_source none none source = source
start_source (some a) (some b) source = if a == b then source else "unknown"
start_source _ _ source = "unknown"

start_observation : Option ℕ → Option ℕ → Option String → Option String
start_observation none none id = id
start_observation (some a) (some b) id = if a == b then id else none
start_observation _ _ id = none

-- The new row over the old one, without provenance of the start.
merged_member : MemberRow → MemberRow → MemberRow
unfolding start_source start_observation
merged_member old m = record m {
  start_time_source = start_source old.start_time_ms m.start_time_ms old.start_time_source;
  start_observation_id =
      start_observation old.start_time_ms m.start_time_ms old.start_observation_id;
}

unfoldable pub put_member : MemberRow → List MemberRow → List MemberRow
unfolding merged_member
put_member m [] = record m { start_time_source = "unknown"; start_observation_id = none } ∷ []
put_member m (x ∷ xs) = if x.id == m.id then merged_member x m ∷ xs else x ∷ put_member m xs

-- `upsertMember` of a member without a club, with the references to the event and the race.
unfoldable pub upsert_member : MemberRow → Db Tables (Unit {0})
unfolding put_member find_race find_event
upsert_member m = do
  known ←
      query (λ s. is_some (find_event m.event_id s.events) && is_some (find_race m.race_id s.races))
  raise_if (not known) constraint
  execute λ s. record s { members = put_member m s.members }

set_rfid : String → Option String → List MemberRow → List MemberRow
set_rfid id rfid [] = []
set_rfid id rfid (m ∷ ms) =
    if m.id == id then record m { rfid = rfid } ∷ ms else m ∷ set_rfid id rfid ms

unfoldable pub restore_packet_rfid : String → Option String → Db Tables (Unit {0})
unfolding set_rfid
restore_packet_rfid id rfid = execute λ s. record s { members = set_rfid id rfid s.members }

unfoldable pub cast_integer : String → ℤ
cast_integer s = elim (parse_int 64 s) [ none ↦ pos 0 | some n ↦ n ]

has_number : ℤ → Option ℤ → Bool
unfolding int_beq
has_number n none = false
has_number n (some m) = int_beq m n

-- The code of `CheckPacketNumber`, or the empty text.
unfoldable pub check_packet_number : String → String → String → Db Tables String
unfolding cast_integer has_number int_beq
check_packet_number event id bib = query λ s.
    if any (λ m. m.event_id == event && not (m.id == id) && has_number (cast_integer bib) m.number)
      s.members
    then "number_occupied"
    else if any (λ l. l.event_id == event && int_beq l.number (cast_integer bib)) s.rfid_logs
    then "timing_review_required"
    else ""

-- `strings.TrimSpace`
trim_left : String → String
trim_left String.[] = ""
trim_left (String.◌∷◌ c s) =
    let rest = trim_left s in if is_space (code c) then rest else char_cons c s

trim_right : String → String
trim_right String.[] = ""
trim_right (String.◌∷◌ c s) =
    let rest = trim_right s in if is_space (code c) && rest == "" then "" else char_cons c rest

unfoldable pub trim_space : String → String
unfolding trim_left trim_right
trim_space s = trim_left (trim_right s)

-- The length is that of the text with its spaces, the forbidden characters are those of the rest.
normalize_text : String → Option (Option String)
unfolding trim_space valid_text
normalize_text s =
    if ltb 255 (len s) || not (valid_text (trim_space s) 255)
    then none
    else some (if trim_space s == "" then none else some (trim_space s))

-- `none` is the error.
unfoldable pub normalize_club : Option String → Option (Option String)
unfolding normalize_text
normalize_club none = some none
normalize_club (some s) = normalize_text s

-- `MemberClubsForIDs`: the rows of the members; a member without a row is not in the map.
unfoldable pub member_clubs_for_ids : String → List String → Db Tables (List ClubRow)
member_clubs_for_ids event ids =
    query λ s. filter (λ c. c.event_id == event && any (λ id. id == c.member_id) ids) s.clubs
  where
    filter : (ClubRow → Bool) → List ClubRow → List ClubRow
    filter p [] = []
    filter p (c ∷ cs) = if p c then c ∷ filter p cs else filter p cs

put_club : String → String → Option String → List ClubRow → List ClubRow
put_club event id club [] = record { event_id = event; member_id = id; club = club } ∷ []
put_club event id club (c ∷ cs) =
    if c.event_id == event && c.member_id == id
    then record c { club = club } ∷ cs
    else c ∷ put_club event id club cs

unfoldable pub apply_one : String → String → Option String → Db Tables (Unit {0})
unfolding normalize_club find_member put_club
apply_one event id club = do
  value ← or_raise (normalize_club club) (message "invalid Club text")
  exists ← query (λ s. any (λ m. m.event_id == event && m.id == id) s.members)
  execute λ s. if exists then record s { clubs = put_club event id value s.clubs } else s

-- `ApplyMemberClubs`, inside a transaction, for entries in some order.
unfoldable pub apply_member_clubs : String → List (String × Option String) → Db Tables (Unit {0})
unfolding apply_one
apply_member_clubs event [] = pure tt
apply_member_clubs event ((id, club) ∷ rest) = do
  apply_one event id club
  apply_member_clubs event rest
