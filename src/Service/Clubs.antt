-- ===== src/Service/Clubs.antt =====
-- The clubs of the members whose rows an operation changes: internal/service/packet_issuance_clubs.go. A map is a list
-- of entries of which the newest counts, and the empty text in `sources` is a person who occurs twice.
use chrono_desk.Prelude.{
  Bool, List, Option, String, [], any, false, if◌then◌else◌, is_some, none, not, some, ◌&&◌, ◌++◌,
  ◌∷◌,
}
use chrono_desk.Store.Members.{apply_member_clubs, member_clubs_for_ids}
use chrono_desk.Store.Tables.{ClubRow, Tables}
use chrono_desk.Store.Db.{◌>>=◌, ◌>>◌, Db, message, pure, raise_if}
use chrono_desk.Packet.ParseOperation.{change_ids}
use chrono_desk.Packet.Model.{Change, Person}
use chrono_desk.Prelude.Classes.{string_eq, ◌==◌}

lookup : {A : Type 0} → String → List (String × A) → Option A
lookup key [] = none
lookup key ((k, v) ∷ rest) = if k == key then some v else lookup key rest

-- The first loop.
sources_of : List Change → List (String × String) → List (String × String)
unfolding lookup
sources_of [] sources = sources
sources_of (c ∷ cs) sources = elim c.before.person [
  | none ↦ sources_of cs sources
  | some p ↦
      sources_of cs
        ((p.id, if is_some (lookup p.id sources) then "" else c.registration_id) ∷ sources)
]

-- `existing[id]`: the club of a member with a row.
existing_club : String → List ClubRow → Option (Option String)
existing_club id [] = none
existing_club id (c ∷ cs) = if c.member_id == id then some c.club else existing_club id cs

club_or_nil : Option (Option String) → Option String
club_or_nil none = none
club_or_nil (some club) = club

same_person : Option Person → Person → Bool
same_person none after = false
same_person (some before) after = before.id == after.id

kept_club : String → Option (Option String) → List (String × Option String)
kept_club id none = []
kept_club id (some club) = (id, club) ∷ []

-- A new person never inherits the club of the previous owner.
new_club :
    List (String × String) → List ClubRow → String → Option String → List (String × Option String)
unfolding existing_club club_or_nil
new_club sources existing id none = (id, none) ∷ []
new_club sources existing id (some source) =
    (
      id,
      if not (source == "") && not (source == id)
          then club_or_nil (existing_club source existing)
          else none,
    )
    ∷ []

unfoldable pub club_entry :
    List (String × String) → List ClubRow → Change → List (String × Option String)
unfolding same_person kept_club existing_club new_club lookup
club_entry sources existing c = elim c.after.person [
  | none ↦ (c.registration_id, none) ∷ []
  | some after ↦
      if same_person c.before.person after
      then kept_club c.registration_id (existing_club c.registration_id existing)
      else new_club sources existing c.registration_id (lookup after.id sources)
]

club_entries : List (String × String) → List ClubRow → List Change → List (String × Option String)
unfolding club_entry
club_entries sources existing [] = []
club_entries sources existing (c ∷ cs) =
    club_entry sources existing c ++ club_entries sources existing cs

unfoldable pub packet_club_projection :
    String → List Change → Db Tables (List (String × Option String))
unfolding member_clubs_for_ids sources_of club_entries
packet_club_projection event changes = do
  existing ← member_clubs_for_ids event (change_ids changes)
  raise_if (any (λ c. not (c.after.event_id == event)) changes)
      (message "club projection event mismatch")
  pure (club_entries (sources_of changes []) existing changes)

unfoldable pub apply_packet_clubs : String → List (String × Option String) → Db Tables (Unit {0})
unfolding apply_member_clubs
apply_packet_clubs event clubs = apply_member_clubs event clubs
