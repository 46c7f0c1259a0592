-- ===== src/Service/Receive/Afterwards.antt =====
-- What becomes of an answered operation in later transactions: `receiveOne` of
-- internal/service/packet_issuance.go, and the transactions on the feed.
use chrono_desk.Service.Receive.Batch.{
  receive_body, receive_known, receive_new, receive_one, scope_differs,
}
use chrono_desk.Store.Operations.{Receipt, find_operation, find_packet_operation}
use chrono_desk.Service.Receive.Ends.{Persists, Persists-receive_new}
use chrono_desk.Store.Tables.{OperationRow, Tables}
use chrono_desk.Packet.Operation.{Operation}
use chrono_desk.Service.Receive.Keeps.{IsSameJournal}
use chrono_desk.Service.Receive.Apart.{IsApart, persist-IsApart, within_tx-IsSameJournal}
use chrono_desk.Service.Receive.Persist.{External, PacketConnectionContext, find_scope}
use chrono_desk.Store.Db.{
  branch, done, done-injective, Db, Run, after_done, done-injective, raise_if->>=, state_of,
  within_tx, commit, failed, message, pure, ◌>>=◌, resume,
}
use chrono_desk.Store.Journal.{Call, run_call}
use chrono_desk.Prelude.{
  Bool, Bool-cases, Option, String, ap, false, inl, inr, none, not, refl, some, subst, sym, true,
  ◌∙◌, ◌≡◌,
}
use chrono_desk.Prelude.Classes.{string_eq, nat_eq, ◌==◌, eq_iff}

-- The tables after some further operations, of any connections and at any times, and transactions on the
-- feed, committed or not.
pub data ReceivedLater : Tables → Tables → Type 0 where
  unchanged : (s : Tables) → ReceivedLater s s
  then_received :
      (s t : Tables)
      → ReceivedLater s t
      → (env : External) (connection : PacketConnectionContext) (operation : Operation)
      → ReceivedLater s (state_of (receive_one env connection operation t))
  then_fed :
      (s t : Tables)
      → ReceivedLater s t
      → (c : Call) → ReceivedLater s (state_of (within_tx (run_call c) t))

branch-IsApart :
    (env : External) (connection : PacketConnectionContext) (operation : Operation) (waits : Bool)
    (answer : Receipt) (s t : Tables) (receipt : Receipt)
    → branch (not waits) (pure answer) (receive_new env connection operation true) s
      ≡ done receipt t
    → IsApart operation.operation_id s.operations s.scopes t
unfolding Persists IsApart branch
branch-IsApart env connection operation false answer s t receipt h =
    let p = after_done h in
    (ap (λ x. x.scopes) p, λ other n. ap (λ x. find_operation other x.operations) p)
branch-IsApart env connection operation true answer s t receipt h =
    Persists-receive_new env connection operation true s.operations s.scopes
      (λ x _. IsApart operation.operation_id s.operations s.scopes x)
      (persist-IsApart env operation true s.operations s.scopes) s t receipt refl refl h

chosen :
    (waits : Bool) (answer : Receipt) (m : Db Tables Receipt) (s t : Tables) (receipt : Receipt)
    → waits ≡ false
    → branch (not waits) (pure answer) m s ≡ done receipt t
    → t ≡ s
unfolding branch
chosen true answer m s t receipt p h = cc
chosen false answer m s t receipt p h = sym (done-injective h).1

receive_known-IsApart :
    (env : External) (connection : PacketConnectionContext) (operation : Operation)
    (existing : Option OperationRow) (s t : Tables) (receipt : Receipt)
    → receive_known env connection operation existing s ≡ done receipt t
    → IsApart operation.operation_id s.operations s.scopes t
unfolding receive_known Persists IsApart branch
receive_known-IsApart env connection operation none s t receipt h =
    Persists-receive_new env connection operation false s.operations s.scopes
      (λ x _. IsApart operation.operation_id s.operations s.scopes x)
      (persist-IsApart env operation false s.operations s.scopes) s t receipt refl refl h
receive_known-IsApart env connection operation (some r) s t receipt h =
    let (_, h1) = raise_if->>= _ _ s _ h in
    branch-IsApart env connection operation (r.outcome == "waiting_dependency") _ s t receipt h1

-- An operation that is stored is not changed when it comes again, whatever it says.
receive_known-settled :
    (env : External) (connection : PacketConnectionContext) (operation : Operation)
    (r : OperationRow) (s t : Tables) (receipt : Receipt)
    → (r.outcome == "waiting_dependency") ≡ false
    → receive_known env connection operation (some r) s ≡ done receipt t
    → t ≡ s
unfolding receive_known
receive_known-settled env connection operation r s t receipt settled h =
    let (_, h1) = raise_if->>= _ _ s _ h in
    chosen (r.outcome == "waiting_dependency") _ _ s t receipt settled h1

-- Its row and the scopes after a further operation.
receive_body-answered :
    (env : External) (connection : PacketConnectionContext) (operation : Operation) (id : String)
    (r : OperationRow) (s t : Tables) (receipt : Receipt)
    → (r.outcome == "waiting_dependency") ≡ false
    → find_operation id s.operations ≡ some r
    → receive_body env connection operation s ≡ done receipt t
    → (t.scopes ≡ s.scopes) × (find_operation id t.operations ≡ some r)
unfolding receive_body find_packet_operation IsApart resume
receive_body-answered env connection operation id r s t receipt settled found h =
    let (_, h1) = raise_if->>= _ _ s _ h in
    let (_, h2) =
      raise_if->>= (scope_differs connection (find_scope connection.event_id s.scopes))
        (message "operation_scope_conflict") s
        (λ _.
          find_packet_operation operation.operation_id >>= receive_known env connection operation)
        h1 in
    let h3 : receive_known env connection operation
          (find_operation operation.operation_id s.operations) s
        ≡ done receipt t =
      h2 in
    elim (Bool-cases (operation.operation_id == id)) [
      | inl e ↦
          let known : find_operation operation.operation_id s.operations ≡ some r =
            ap (λ x. find_operation x s.operations) ((eq_iff operation.operation_id id).0 e)
            ∙ found in
          let p =
            receive_known-settled env connection operation r s t receipt settled
              (subst (λ o. receive_known env connection operation o s ≡ done receipt t) known h3) in
          (ap (λ x. x.scopes) p, ap (λ x. find_operation id x.operations) p ∙ found)
      | inr e ↦
          let (j, others) = receive_known-IsApart env connection operation _ s t receipt h3 in
          (j, others id e ∙ found)
    ]

-- What holds of the tables before and after a body holds after the commit or the rollback.
after_commit :
    {A : Type 0} (P : Tables → Type 0) (s : Tables) (m : Run Tables A)
    → ((a : A) (t : Tables) → m ≡ done a t → P t)
    → P s
    → P (state_of (commit s m))
after_commit P s (failed x t) f c = c
after_commit P s (done a t) f c = f a t refl

pub ReceivedLater-answered :
    (id : String) (r : OperationRow) (s t : Tables)
    → (r.outcome == "waiting_dependency") ≡ false
    → find_operation id s.operations ≡ some r
    → ReceivedLater s t
    → (t.scopes ≡ s.scopes) × (find_operation id t.operations ≡ some r)
unfolding receive_one within_tx IsSameJournal
ReceivedLater-answered id r s t settled found (unchanged u) = (refl, found)
ReceivedLater-answered id r s t settled found (then_received u before passed env connection o) =
    let (j, still) = ReceivedLater-answered id r s before settled found passed in
    after_commit (λ x. (x.scopes ≡ s.scopes) × (find_operation id x.operations ≡ some r)) before
      (receive_body env connection o before)
      (λ receipt end h.
        let (j2, again) =
          receive_body-answered env connection o id r before end receipt settled still h in
        (j2 ∙ j, again))
      (j, still)
ReceivedLater-answered id r s t settled found (then_fed u before passed c) =
    let (j, still) = ReceivedLater-answered id r s before settled found passed in
    let (i, j2) = within_tx-IsSameJournal c before in (j2 ∙ j, ap (find_operation id) i ∙ still)
