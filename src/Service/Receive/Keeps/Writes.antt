-- ===== src/Service/Receive/Keeps/Writes.antt =====
-- The parts of the receiver that write rows, and keep the journal of operations and the scopes.
use chrono_desk.Service.Receive.Keeps.{
  IsSameJournal, Keeps, Keeps-bind, Keeps-branch, Keeps-execute, Keeps-get_member,
  Keeps-insert_packet_registration, Keeps-or_raise, Keeps-pure, Keeps-put_packet_registration,
  Keeps-query, Keeps-raise_if, Keeps-resolve_category_id_for_member, Keeps-restore_packet_rfid,
  same_journal,
}
use chrono_desk.Service.Clubs.{apply_packet_clubs, packet_club_projection}
use chrono_desk.Service.Receive.General.{apply_changes, apply_verdict, category_of}
use chrono_desk.Packet.Operation.{Operation}
use chrono_desk.Service.Receive.Persist.{External, Verdict, merge_verdict, packet_member}
use chrono_desk.Service.Receive.Returns.{apply_returned}
use chrono_desk.Service.Receive.Numbers.{apply_created, apply_numbered, or_message, wanted_number}
use chrono_desk.Packet.Model.{ok, err, Result, Command, Registration, Change}
use chrono_desk.Prelude.{
  Bool, Option, String, false, if◌then◌else◌, none, refl, true, List, [], ◌∷◌,
}
use chrono_desk.Store.Members.{
  restore_packet_rfid, apply_member_clubs, apply_one, check_packet_number, member_clubs_for_ids,
}
use chrono_desk.Store.Tables.{Tables}
use chrono_desk.Store.Db.{state_of}

Keeps-packet_club_projection :
    (event : String) (changes : List Change) → Keeps (packet_club_projection event changes)
unfolding packet_club_projection member_clubs_for_ids
Keeps-packet_club_projection event changes =
    Keeps-bind _ _ (Keeps-query _) λ existing. Keeps-bind _ _ (Keeps-raise_if _ _) λ u. Keeps-pure _

with_clubs : (b : Bool) (s t : Tables) → IsSameJournal s t → IsSameJournal s (if b then t else s)
with_clubs true s t p = p
with_clubs false s t p = same_journal s

Keeps-apply_member_clubs :
    (event : String) (clubs : List (String × Option String))
    → Keeps (apply_member_clubs event clubs)
unfolding apply_member_clubs apply_one IsSameJournal
Keeps-apply_member_clubs event [] = Keeps-pure _
Keeps-apply_member_clubs event ((id, club) ∷ rest) =
    Keeps-bind _ _
      (Keeps-bind _ _ (Keeps-or_raise _ _) λ value.
        Keeps-bind _ _ (Keeps-query _)
          λ exists. Keeps-execute _ (λ s. with_clubs exists s _ (refl, refl)))
      λ u. Keeps-apply_member_clubs event rest

Keeps-category_of :
    (env : External) (c : Change) (category : Option String) → Keeps (category_of env c category)
unfolding category_of
Keeps-category_of env c category =
    Keeps-branch _ _ _ (Keeps-resolve_category_id_for_member _ (packet_member c.after))
      (Keeps-pure _)

detached :
    (b : Bool) (id : String) (s : Tables)
    → IsSameJournal s (if b then state_of (restore_packet_rfid id none s) else s)
unfolding restore_packet_rfid IsSameJournal
detached true id s = (refl, refl)
detached false id s = same_journal s

Keeps-apply_changes :
    (env : External) (operation : Operation) (cs : List Change)
    → Keeps (apply_changes env operation cs)
unfolding apply_changes
Keeps-apply_changes env operation [] = Keeps-pure _
Keeps-apply_changes env operation (c ∷ cs) = Keeps-bind _ _ (Keeps-get_member _) λ m.
    Keeps-bind _ _ (Keeps-execute _ (detached _ c.registration_id)) λ u.
      Keeps-bind _ _ (Keeps-category_of env c m.category_id) λ category.
        Keeps-bind _ _ (Keeps-put_packet_registration _ _ _)
          λ u. Keeps-apply_changes env operation cs

pub Keeps-apply_verdict :
    (env : External) (event : String) (operation : Operation) (verdict : Verdict)
    → Keeps (apply_verdict env event operation verdict)
unfolding apply_verdict apply_packet_clubs
Keeps-apply_verdict env event operation verdict = Keeps-branch _ _ _ (Keeps-pure _) (
    Keeps-bind _ _ (Keeps-packet_club_projection event verdict.changes) λ clubs.
      Keeps-bind _ _ (Keeps-apply_changes env operation verdict.changes)
        λ u. Keeps-apply_member_clubs event clubs)

pub Keeps-apply_created :
    (env : External) (operation : Operation) (verdict : Verdict)
    → Keeps (apply_created env operation verdict)
unfolding apply_created
Keeps-apply_created env operation verdict = Keeps-branch _ _ _ (Keeps-pure _) (
    Keeps-bind _ _ (Keeps-or_raise _ _) λ c.
      Keeps-bind _ _ (Keeps-resolve_category_id_for_member _ (packet_member c.after))
        λ category. Keeps-insert_packet_registration _ _ _)

pub Keeps-apply_numbered :
    (operation : Operation) (verdict : Verdict) → Keeps (apply_numbered operation verdict)
unfolding apply_numbered
Keeps-apply_numbered operation verdict = Keeps-branch _ _ _ (Keeps-pure _) (
    Keeps-bind _ _ (Keeps-or_raise _ _)
      λ c. Keeps-bind _ _ (Keeps-get_member _) λ m. Keeps-put_packet_registration _ _ _)

pub Keeps-apply_returned :
    (operation : Operation) (verdict : Verdict) → Keeps (apply_returned operation verdict)
unfolding apply_returned
Keeps-apply_returned operation verdict = Keeps-branch _ _ _ (Keeps-pure _) (
    Keeps-bind _ _ (Keeps-get_member _) λ m. Keeps-bind _ _ (Keeps-or_raise _ _) λ source.
      Keeps-bind _ _ (Keeps-put_packet_registration _ _ _) λ u.
        Keeps-bind _ _ (Keeps-restore_packet_rfid _ _) λ u.
          Keeps-bind _ _ (Keeps-or_raise _ _) λ target.
            Keeps-bind _ _ (Keeps-insert_packet_registration _ _ _)
              λ u. Keeps-restore_packet_rfid _ _)

pub Keeps-or_message : {A : Type 0} (r : Result A) → Keeps (or_message r)
unfolding or_message Keeps
Keeps-or_message (ok a) s = same_journal s
Keeps-or_message (err e) s = same_journal s

pub Keeps-merge_verdict :
    (env : External) (current : List Registration) (operation : Operation)
    → Keeps (merge_verdict env current operation)
unfolding merge_verdict
Keeps-merge_verdict env current operation =
    Keeps-bind _ _ (Keeps-query _) λ verdict. Keeps-or_raise _ _

pub Keeps-wanted_number : (event : String) (command : Command) → Keeps (wanted_number event command)
unfolding wanted_number check_packet_number
Keeps-wanted_number event command = Keeps-branch _ _ _ (Keeps-pure _) (Keeps-query _)
