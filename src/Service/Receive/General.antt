-- ===== src/Service/Receive/General.antt =====
-- Operations on rows that exist: the last part of `receiveOne` of internal/service/packet_issuance.go.
use chrono_desk.Prelude.{
  Bool, List, Option, String, [], false, if◌then◌else◌, none, not, some, true, ◌&&◌, ◌||◌, ◌∷◌,
}
use chrono_desk.Service.Receive.Persist.{External, Verdict, merge_verdict, packet_member, persist}
use chrono_desk.Service.Clubs.{apply_packet_clubs, packet_club_projection}
use chrono_desk.Service.Categories.{resolve_category_id_for_member}
use chrono_desk.Store.Operations.{Receipt}
use chrono_desk.Store.Registrations.{get_packet_registrations, put_packet_registration}
use chrono_desk.Store.Members.{get_member, get_race, restore_packet_rfid}
use chrono_desk.Store.Tables.{RaceRow, Tables}
use chrono_desk.Store.Db.{◌>>=◌, ◌>>◌, Db, attempt, execute, pure, state_of, branch}
use chrono_desk.Packet.ParseOperation.{change_ids}
use chrono_desk.Packet.Operation.{Operation}
use chrono_desk.Packet.Model.{
  person_eq, Change, Command, Registration, assign_reserve, clear_number,
}
use chrono_desk.Prelude.Classes.{string_eq, bool_eq, option_eq, ◌==◌}

unfoldable pub detaches : Command → String → Bool
detaches command id = elim command.type [
  | clear_number ↦ true
  | assign_reserve ↦ command.return_source == some false && id == command.registration_id
  | _ ↦ false
]

unfoldable pub category_of : External → Change → Option String → Db Tables (Option String)
unfolding packet_member resolve_category_id_for_member
category_of env c category =
    branch (not (c.before.person == c.after.person) || not (c.before.race_id == c.after.race_id))
      (resolve_category_id_for_member env.age_on (packet_member c.after)) (pure category)

-- The loop over the changes of an operation that is applied.
unfoldable pub apply_changes : External → Operation → List Change → Db Tables (Unit {0})
unfolding detaches category_of get_member restore_packet_rfid put_packet_registration
apply_changes env operation [] = pure tt
apply_changes env operation (c ∷ cs) = do
  m ← get_member c.registration_id
  execute λ s.
      if detaches operation.command c.registration_id
      then state_of (restore_packet_rfid c.registration_id none s)
      else s
  category ← category_of env c m.category_id
  put_packet_registration c.after (operation.operation_id ∷ []) category
  apply_changes env operation cs

unfoldable pub apply_verdict : External → String → Operation → Verdict → Db Tables (Unit {0})
unfolding apply_changes packet_club_projection apply_packet_clubs
apply_verdict env event operation verdict =
    branch (not (verdict.outcome == "applied")) (pure tt) (do
      clubs ← packet_club_projection event verdict.changes
      apply_changes env operation verdict.changes
      apply_packet_clubs event clubs)

-- The last part of `receiveOne`, on the rows that it has read.
unfoldable pub receive_rows :
    External → String → Operation → Bool → Option (List Registration) → Db Tables Receipt
unfolding merge_verdict apply_verdict
receive_rows env event operation known none =
    persist env operation known "rejected" "registration_not_found" []
receive_rows env event operation known (some current) = do
  verdict ← merge_verdict env current operation
  apply_verdict env event operation verdict
  persist env operation known verdict.outcome verdict.code verdict.changes

unfoldable pub receive_general : External → String → Operation → Bool → Db Tables Receipt
unfolding get_packet_registrations receive_rows
receive_general env event operation known = do
  current ← attempt (get_packet_registrations event (change_ids operation.changes))
  receive_rows env event operation known current

-- Not a race of this event.
unfoldable pub foreign_race : String → Option RaceRow → Bool
foreign_race event none = true
foreign_race event (some race) = not (race.event_id == event)

unfoldable pub receive_race_change : External → String → Operation → Bool → Db Tables Receipt
unfolding get_race foreign_race receive_general
receive_race_change env event operation known = do
  race ← attempt (get_race operation.command.race_id)
  branch (foreign_race event race) (persist env operation known "rejected" "invalid_target" [])
      (receive_general env event operation known)
