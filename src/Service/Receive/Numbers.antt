-- ===== src/Service/Receive/Numbers.antt =====
-- Numbers and new rows: internal/service/packet_issuance_numbers.go. A nil person is a failure, since a panic rolls the
-- transaction back too.
use chrono_desk.Prelude.{
  Bool, List, Option, String, [], false, is_some, none, not, some, true, ◌||◌, ◌∷◌,
}
use chrono_desk.Service.Receive.General.{foreign_race}
use chrono_desk.Service.Receive.Persist.{
  External, Verdict, code_text, merge_verdict, packet_member, persist,
}
use chrono_desk.Service.Categories.{resolve_category_id_for_member}
use chrono_desk.Store.Operations.{Receipt}
use chrono_desk.Store.Registrations.{
  get_packet_registrations, insert_packet_registration, put_packet_registration,
}
use chrono_desk.Store.Members.{check_packet_number, get_member, get_race}
use chrono_desk.Store.Tables.{MemberRow, Tables}
use chrono_desk.Store.Db.{
  ◌>>=◌, ◌>>◌, Db, attempt, message, or_raise, pure, raise, raise_if, branch,
}
use chrono_desk.Packet.Validate.{empty_registration}
use chrono_desk.Packet.Operation.{Operation}
use chrono_desk.Packet.Model.{
  person_eq, ok, err, Change, Command, CommandType, Person, Registration, Result,
  create_registration,
}
use chrono_desk.Prelude.Classes.{string_eq, bool_eq, option_eq, ◌==◌}

-- `CheckPacketNumber` is asked only for a number.
unfoldable pub wanted_number : String → Command → Db Tables String
unfolding check_packet_number
wanted_number event command =
    branch (command.bib == "") (pure "")
      (check_packet_number event command.registration_id command.bib)

unfoldable pub lacks_details : Option Person → Bool
lacks_details none = false
lacks_details (some p) = p.birth_date == "" || p.gender == ""

unfoldable pub or_message : {A : Type 0} → Result A → Db Tables A
unfolding code_text
or_message (ok a) = pure a
or_message (err e) = raise (message (code_text e))

unfoldable pub first_change : List Change → Option Change
first_change [] = none
first_change (c ∷ cs) = some c

unfoldable pub apply_created : External → Operation → Verdict → Db Tables (Unit {0})
unfolding first_change packet_member resolve_category_id_for_member insert_packet_registration
apply_created env operation verdict = branch (not (verdict.outcome == "applied")) (pure tt) (do
  c ← or_raise (first_change verdict.changes) (message "index out of range")
  category ← resolve_category_id_for_member env.age_on (packet_member c.after)
  insert_packet_registration c.after (operation.operation_id ∷ []) category)

unfoldable pub apply_numbered : Operation → Verdict → Db Tables (Unit {0})
unfolding first_change get_member put_packet_registration
apply_numbered operation verdict = branch (not (verdict.outcome == "applied")) (pure tt) (do
  c ← or_raise (first_change verdict.changes) (message "index out of range")
  m ← get_member c.after.id
  put_packet_registration c.after (operation.operation_id ∷ []) m.category_id)

-- The creation, after the tests of the number, the member and the race.
unfoldable pub create_row : External → Operation → Bool → Db Tables Receipt
unfolding lacks_details or_message empty_registration merge_verdict apply_created
create_row env operation known = do
  raise_if (not (is_some operation.command.person)) (message "nil person")
  branch (lacks_details operation.command.person)
      (persist env operation known "rejected" "person_details_required" [])
      (do
        empty ← or_message (empty_registration operation.command)
        verdict ← merge_verdict env (empty ∷ []) operation
        apply_created env operation verdict
        persist env operation known verdict.outcome verdict.code verdict.changes)

unfoldable pub create_in_race : External → String → Operation → Bool → Db Tables Receipt
unfolding get_race foreign_race create_row
create_in_race env event operation known = do
  race ← attempt (get_race operation.command.race_id)
  branch (foreign_race event race) (persist env operation known "rejected" "invalid_target" [])
      (create_row env operation known)

unfoldable pub create_unless :
    External → String → Operation → Bool → Option MemberRow → Db Tables Receipt
unfolding create_in_race
create_unless env event operation known (some m) =
    persist env operation known "conflict" "registration_already_exists" []
create_unless env event operation known none = create_in_race env event operation known

unfoldable pub number_row : External → Operation → Bool → Registration → Db Tables Receipt
unfolding merge_verdict apply_numbered
number_row env operation known row =
    branch (row.has_timing_evidence)
      (persist env operation known "conflict" "timing_review_required" [])
      (do
        verdict ← merge_verdict env (row ∷ []) operation
        apply_numbered operation verdict
        persist env operation known verdict.outcome verdict.code verdict.changes)

unfoldable pub number_rows :
    External → Operation → Bool → Option (List Registration) → Db Tables Receipt
unfolding number_row
number_rows env operation known none =
    persist env operation known "rejected" "registration_not_found" []
number_rows env operation known (some []) = raise (message "index out of range")
number_rows env operation known (some (row ∷ rows)) = number_row env operation known row

unfoldable pub is_create : CommandType → Bool
is_create create_registration = true
is_create _ = false

unfoldable pub after_number : External → String → Operation → Bool → Db Tables Receipt
unfolding is_create get_member create_unless get_packet_registrations number_rows
after_number env event operation known =
    branch (is_create operation.command.type)
      (do
        m ← attempt (get_member operation.command.registration_id)
        create_unless env event operation known m)
      (do
        current ← attempt (get_packet_registrations event (operation.command.registration_id ∷ []))
        number_rows env operation known current)

-- `receiveNumber`
unfoldable pub receive_number : External → String → Operation → Bool → Db Tables Receipt
unfolding wanted_number after_number
receive_number env event operation known = do
  code ← wanted_number event operation.command
  branch (not (code == "")) (persist env operation known "conflict" code [])
      (after_number env event operation known)
