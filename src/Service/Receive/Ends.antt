-- ===== src/Service/Receive/Ends.antt =====
-- Every run of the receiver that answers ends in `persist`: `receiveOne` of internal/service/packet_issuance.go,
-- packet_issuance_numbers.go and packet_issuance_return.go.
use chrono_desk.Service.Receive.Keeps.Writes.{
  Keeps-apply_created, Keeps-apply_numbered, Keeps-apply_returned, Keeps-apply_verdict,
  Keeps-merge_verdict, Keeps-or_message, Keeps-wanted_number,
}
use chrono_desk.Store.Publish.{publish_packet_operation}
use chrono_desk.Service.Receive.Returns.{
  receive_reserve_return, return_in_race, return_row, return_rows,
}
use chrono_desk.Service.Receive.General.{receive_general, receive_race_change, receive_rows}
use chrono_desk.Store.Members.{check_packet_number}
use chrono_desk.Service.Receive.Numbers.{
  after_number, create_in_race, create_row, create_unless, number_row, number_rows, receive_number,
}
use chrono_desk.Packet.ParseOperation.{change_ids}
use chrono_desk.Service.Receive.Persisted.{
  IsExpected, IsStored, saved, Keeps-publish_packet_operation,
}
use chrono_desk.Service.Receive.Batch.{
  receive_by_type, receive_command, receive_dependent, receive_new,
}
use chrono_desk.Store.Db.{
  Db, Failure, branch, done, raise, resume-eq-done, state_of, ◌>>=◌, done-injective,
}
use chrono_desk.Service.Receive.Keeps.{
  IsSameJournal, Keeps, Keeps-query, Keeps-raise_if, Keeps-attempt, Keeps-get_member,
  Keeps-get_packet_registrations, Keeps-get_race,
}
use chrono_desk.Packet.Model.{
  Change, CommandType, Registration, assign_number, change_race, create_registration,
  return_to_reserve,
}
use chrono_desk.Prelude.{
  Bool, List, Option, String, [], false, some, true, ◌∷◌, ◌≡◌, sym, ◌∙◌, subst, none, ap,
}
use chrono_desk.Service.Receive.Persist.{
  External, PacketConnectionContext, code_pointer, persist, packet_receipt,
}
use chrono_desk.Store.Operations.{
  Receipt, content_hash_of, save_packet_operation, find_packet_origin_sequence,
  packet_dependencies_applied, find_operation,
}
use chrono_desk.Store.Tables.{OperationRow, PacketIssuanceScope, Tables, MemberRow}
use chrono_desk.Packet.Operation.{Operation}
use chrono_desk.Prelude.Classes.{string_eq, nat_eq}

module _ (env : External) (connection : PacketConnectionContext) (operation : Operation)
    (known : Bool) (ops : List OperationRow) (scopes : List PacketIssuanceScope)
    (Ends : Tables → Receipt → Type 0) where
  -- From these tables every answer has the property.
  unfoldable pub Persists : Db Tables Receipt → Type 0
  Persists m =
      (s t : Tables) (receipt : Receipt)
      → s.operations ≡ ops
      → s.scopes ≡ scopes
      → m s ≡ done receipt t
      → Ends t receipt

  Persists-bind :
      {A : Type 0} (m : Db Tables A) (k : A → Db Tables Receipt)
      → Keeps m
      → ((a : A) → Persists (k a))
      → Persists (m >>= k)
  unfolding Persists Keeps IsSameJournal
  Persists-bind m k p q s t receipt i j h =
      let (a, u, e1, e2) = resume-eq-done (m s) k h in
      let (i2, j2) = subst (λ x. IsSameJournal s (state_of x)) e1 (p s) in
      q a u t receipt (i2 ∙ i) (j2 ∙ j) e2

  Persists-branch :
      (b : Bool) (x y : Db Tables Receipt) → Persists x → Persists y → Persists (branch b x y)
  unfolding Persists branch
  Persists-branch true x y p q = p
  Persists-branch false x y p q = q

  Persists-raise : (e : Failure) → Persists (raise e)
  unfolding Persists
  Persists-raise e s t receipt i j h = cc

  module _
      (stores : (outcome code : String) (changes : List Change)
        → Persists (persist env operation known outcome code changes)) where
    Persists-receive_rows :
        (event : String) (current : Option (List Registration))
        → Persists (receive_rows env event operation known current)
    unfolding receive_rows
    Persists-receive_rows event none = stores _ _ _
    Persists-receive_rows event (some current) =
        Persists-bind _ _ (Keeps-merge_verdict env current operation) λ verdict.
          Persists-bind _ _ (Keeps-apply_verdict env event operation verdict) λ u. stores _ _ _

    Persists-receive_general :
        (event : String) → Persists (receive_general env event operation known)
    unfolding receive_general
    Persists-receive_general event =
        Persists-bind _ _
          (Keeps-attempt _ (Keeps-get_packet_registrations event (change_ids operation.changes)))
          λ current. Persists-receive_rows event current

    Persists-receive_race_change :
        (event : String) → Persists (receive_race_change env event operation known)
    unfolding receive_race_change
    Persists-receive_race_change event =
        Persists-bind _ _ (Keeps-attempt _ (Keeps-get_race _))
          λ race. Persists-branch _ _ _ (stores _ _ _) (Persists-receive_general event)

    Persists-create_row : Persists (create_row env operation known)
    unfolding create_row
    Persists-create_row = Persists-bind _ _ (Keeps-raise_if _ _) λ u.
        Persists-branch _ _ _ (stores _ _ _) (
          Persists-bind _ _ (Keeps-or_message _) λ empty.
            Persists-bind _ _ (Keeps-merge_verdict env (empty ∷ []) operation) λ verdict.
              Persists-bind _ _ (Keeps-apply_created env operation verdict) λ u. stores _ _ _)

    Persists-create_unless :
        (event : String) (m : Option MemberRow)
        → Persists (create_unless env event operation known m)
    unfolding create_unless create_in_race
    Persists-create_unless event (some m) = stores _ _ _
    Persists-create_unless event none =
        Persists-bind _ _ (Keeps-attempt _ (Keeps-get_race _))
          λ race. Persists-branch _ _ _ (stores _ _ _) Persists-create_row

    Persists-number_rows :
        (current : Option (List Registration)) → Persists (number_rows env operation known current)
    unfolding number_rows number_row
    Persists-number_rows none = stores _ _ _
    Persists-number_rows (some []) = Persists-raise _
    Persists-number_rows (some (row ∷ rows)) = Persists-branch _ _ _ (stores _ _ _) (
        Persists-bind _ _ (Keeps-merge_verdict env (row ∷ []) operation)
          λ verdict. Persists-bind _ _ (Keeps-apply_numbered operation verdict) λ u. stores _ _ _)

    Persists-receive_number : (event : String) → Persists (receive_number env event operation known)
    unfolding receive_number after_number
    Persists-receive_number event =
        Persists-bind _ _ (Keeps-wanted_number event operation.command) λ code.
          Persists-branch _ _ _ (stores _ _ _) (
            Persists-branch _ _ _
              (Persists-bind _ _ (Keeps-attempt _ (Keeps-get_member _))
                λ m. Persists-create_unless event m)
              (Persists-bind _ _
                (Keeps-attempt _
                  (Keeps-get_packet_registrations event (operation.command.registration_id ∷ [])))
                λ current. Persists-number_rows current))

    Persists-return_row :
        (row : Registration) (m : Option MemberRow)
        → Persists (return_row env operation known row m)
    unfolding return_row
    Persists-return_row row (some m) = stores _ _ _
    Persists-return_row row none = Persists-bind _ _ (Keeps-or_message _) λ empty.
        Persists-bind _ _ (Keeps-merge_verdict env (row ∷ empty ∷ []) operation)
          λ verdict. Persists-bind _ _ (Keeps-apply_returned operation verdict) λ u. stores _ _ _

    Persists-return_rows :
        (current : Option (List Registration)) → Persists (return_rows env operation known current)
    unfolding return_rows
    Persists-return_rows none = stores _ _ _
    Persists-return_rows (some []) = Persists-raise _
    Persists-return_rows (some (row ∷ rows)) =
        Persists-bind _ _ (Keeps-attempt _ (Keeps-get_member _)) λ m. Persists-return_row row m

    Persists-receive_reserve_return :
        (event : String) → Persists (receive_reserve_return env event operation known)
    unfolding receive_reserve_return return_in_race check_packet_number
    Persists-receive_reserve_return event = Persists-bind _ _ (Keeps-query _) λ code.
        Persists-branch _ _ _ (stores _ _ _) (
          Persists-bind _ _ (Keeps-attempt _ (Keeps-get_race _)) λ race.
            Persists-branch _ _ _ (stores _ _ _) (
              Persists-bind _ _
                (Keeps-attempt _
                  (Keeps-get_packet_registrations event (operation.command.registration_id ∷ [])))
                λ current. Persists-return_rows current))

    Persists-receive_by_type :
        (event : String) (type : CommandType)
        → Persists (receive_by_type env event operation known type)
    unfolding receive_by_type
    Persists-receive_by_type event return_to_reserve = Persists-receive_reserve_return event
    Persists-receive_by_type event assign_number = Persists-receive_number event
    Persists-receive_by_type event create_registration = Persists-receive_number event
    Persists-receive_by_type event change_race = Persists-receive_race_change event
    Persists-receive_by_type event _ = Persists-receive_general event

    Persists-receive_dependent :
        (event : String) → Persists (receive_dependent env event operation known)
    unfolding receive_dependent packet_dependencies_applied receive_command
    Persists-receive_dependent event = Persists-branch _ _ _ (stores _ _ _) (
        Persists-bind _ _ (Keeps-query _) λ ready.
          Persists-branch _ _ _ (stores _ _ _)
            (Persists-receive_by_type event operation.command.type))

    pub Persists-receive_new : Persists (receive_new env connection operation known)
    unfolding receive_new find_packet_origin_sequence
    Persists-receive_new = Persists-bind _ _ (Keeps-query _) λ owner.
        Persists-bind _ _ (Keeps-raise_if _ _)
          λ u. Persists-branch _ _ _ (stores _ _ _) (Persists-receive_dependent _)

-- The row that `persist` has stored.
pub persist-IsStored :
    (env : External) (connection : PacketConnectionContext) (operation : Operation) (known : Bool)
    (ops : List OperationRow) (scopes : List PacketIssuanceScope)
    → IsExpected env connection operation known ops
    → (outcome code : String) (changes : List Change) (s t : Tables) (receipt : Receipt)
    → s.operations ≡ ops
    → s.scopes ≡ scopes
    → persist env operation known outcome code changes s ≡ done receipt t
    → IsStored env connection operation known scopes t receipt
unfolding persist IsStored Keeps IsSameJournal
persist-IsStored env connection operation known ops scopes expected outcome code changes s t receipt
      i j h =
    let text = code_pointer code in
    let row = packet_receipt operation (content_hash_of env.sha256 operation) outcome text known in
    let (u, s1, e1, h1) =
      resume-eq-done
        (save_packet_operation operation (content_hash_of env.sha256 operation) outcome text env.now
          known s)
        _ h in
    let (v, s2, e2, h2) =
      resume-eq-done (publish_packet_operation operation outcome text changes env.now s1) _ h1 in
    let kept = Keeps-publish_packet_operation operation outcome text changes env.now s1 in
    let (i2, j2) = subst (λ x. IsSameJournal s1 (state_of x)) e2 kept in
    let (answer, last) = done-injective h2 in
    let (a, r, found, same, o, c) =
      saved env connection operation known outcome text s
        (subst (IsExpected env connection operation known) (sym i) expected) e1 in
    let hash = content_hash_of env.sha256 operation in
    (
      ap (λ x. x.scopes) (sym last) ∙ j2 ∙ a ∙ j,
      r,
      ap (λ x. find_operation operation.operation_id x.operations) (sym last)
          ∙ ap (find_operation operation.operation_id) i2
          ∙ found,
      same,
      sym answer
          ∙ ap (λ x. packet_receipt operation hash x text known) (sym o)
          ∙ ap (λ x. packet_receipt operation hash r.outcome x known) (sym c),
    )
