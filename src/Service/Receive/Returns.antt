-- ===== src/Service/Receive/Returns.antt =====
-- The return of a slot to the reserve: internal/service/packet_issuance_return.go.
use chrono_desk.Prelude.{Bool, List, Option, String, [], none, not, some, ◌∷◌}
use chrono_desk.Service.Receive.Numbers.{first_change, or_message}
use chrono_desk.Service.Receive.General.{foreign_race}
use chrono_desk.Service.Receive.Persist.{External, Verdict, merge_verdict, persist}
use chrono_desk.Store.Operations.{Receipt}
use chrono_desk.Store.Registrations.{
  get_packet_registrations, insert_packet_registration, put_packet_registration,
}
use chrono_desk.Store.Members.{check_packet_number, get_member, get_race, restore_packet_rfid}
use chrono_desk.Store.Tables.{MemberRow, Tables}
use chrono_desk.Store.Db.{◌>>=◌, ◌>>◌, Db, attempt, message, or_raise, pure, raise, branch}
use chrono_desk.Packet.Validate.{empty_reserve}
use chrono_desk.Packet.Operation.{Operation}
use chrono_desk.Packet.Model.{person_eq, Change, Registration}
use chrono_desk.Prelude.Classes.{string_eq, bool_eq, option_eq, ◌==◌}

-- The reserve takes the slot, and the registration keeps none of its numbers.
unfoldable pub apply_returned : Operation → Verdict → Db Tables (Unit {0})
unfolding first_change get_member put_packet_registration restore_packet_rfid
    insert_packet_registration
apply_returned operation verdict = branch (not (verdict.outcome == "applied")) (pure tt) (do
  m ← get_member operation.command.registration_id
  source ← or_raise (first_change verdict.changes) (message "index out of range")
  put_packet_registration source.after (operation.operation_id ∷ []) m.category_id
  restore_packet_rfid operation.command.registration_id none
  target ← or_raise (second_change verdict.changes) (message "index out of range")
  insert_packet_registration target.after (operation.operation_id ∷ []) none
  restore_packet_rfid operation.command.target_id m.rfid)
  where
    second_change : List Change → Option Change
    second_change (_ ∷ c ∷ cs) = some c
    second_change _ = none

unfoldable pub return_row :
    External → Operation → Bool → Registration → Option MemberRow → Db Tables Receipt
unfolding or_message empty_reserve merge_verdict apply_returned
return_row env operation known row (some m) =
    persist env operation known "conflict" "registration_already_exists" []
return_row env operation known row none = do
  empty ← or_message (empty_reserve operation.command row)
  verdict ← merge_verdict env (row ∷ empty ∷ []) operation
  apply_returned operation verdict
  persist env operation known verdict.outcome verdict.code verdict.changes

unfoldable pub return_rows :
    External → Operation → Bool → Option (List Registration) → Db Tables Receipt
unfolding get_member return_row
return_rows env operation known none =
    persist env operation known "rejected" "registration_not_found" []
return_rows env operation known (some []) = raise (message "index out of range")
return_rows env operation known (some (row ∷ rows)) = do
  m ← attempt (get_member operation.command.target_id)
  return_row env operation known row m

unfoldable pub return_in_race : External → String → Operation → Bool → Db Tables Receipt
unfolding get_race foreign_race get_packet_registrations return_rows
return_in_race env event operation known = do
  race ← attempt (get_race operation.command.race_id)
  branch (foreign_race event race) (persist env operation known "rejected" "invalid_target" []) (do
    current ← attempt (get_packet_registrations event (operation.command.registration_id ∷ []))
    return_rows env operation known current)

-- `receiveReserveReturn`
unfoldable pub receive_reserve_return : External → String → Operation → Bool → Db Tables Receipt
unfolding check_packet_number return_in_race
receive_reserve_return env event operation known = do
  code ← check_packet_number event operation.command.registration_id operation.command.bib
  branch (not (code == "")) (persist env operation known "conflict" code [])
      (return_in_race env event operation known)
