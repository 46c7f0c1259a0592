-- ===== src/Service/Receive/Replay.antt =====
-- An operation that comes again: `receiveOne` of internal/service/packet_issuance.go.
use chrono_desk.Prelude.{
  Bool, List, Option, ap, false, none, not, refl, some, sym, true, ℕ, ◌∙◌, ◌≡◌, subst,
}
use chrono_desk.Service.Receive.Afterwards.{ReceivedLater, ReceivedLater-answered}
use chrono_desk.Service.Receive.Ends.{Persists, persist-IsStored, Persists-receive_new}
use chrono_desk.Service.Receive.Persisted.{IsExpected, IsStored}
use chrono_desk.Service.Receive.Batch.{
  is_other, receive_known, receive_new, receive_body, receive_one, scope_differs,
}
use chrono_desk.Service.Receive.Persist.{
  External, PacketConnectionContext, packet_receipt, find_scope,
}
use chrono_desk.Store.Operations.{Receipt, content_hash_of, find_operation, find_packet_operation}
use chrono_desk.Store.Tables.{OperationRow, PacketIssuanceScope, Tables}
use chrono_desk.Store.Db.{
  ◌>>=◌, ◌>>◌, done, branch, done-injective, pure, raise_if->>=, Db, Failure, commit, commit-done,
  raise_if, resume, within_tx, ◌>>◌, message,
}
use chrono_desk.Store.Publish.{operation_event}
use chrono_desk.Packet.Operation.{Operation}
use chrono_desk.Prelude.Classes.{string_eq, nat_eq, ◌==◌}

passes :
    {A : Type 0} (b c : Bool) (e : Failure) (x y : Db Tables A) (t : Tables)
    → b ≡ false
    → c ≡ false
    → (raise_if b e >> branch (not c) x y) t ≡ x t
unfolding raise_if branch resume
passes true c e x y t p q = cc
passes false true e x y t p q = cc
passes false false e x y t p q = refl

goes_on :
    {A : Type 0} (b : Bool) (e : Failure) (k : Db Tables A) (t : Tables)
    → b ≡ false
    → (raise_if b e >> k) t ≡ k t
unfolding raise_if resume
goes_on true e k t p = cc
goes_on false e k t p = refl

module _ (env : External) (connection : PacketConnectionContext) (operation : Operation) where
  answered :
      (r : OperationRow) (waits : Bool) (s t : Tables) (receipt : Receipt)
      → find_operation operation.operation_id s.operations ≡ some r
      → is_other env connection operation r ≡ false
      → branch
          (not waits)
          (pure (
            packet_receipt operation
              (content_hash_of env.sha256 operation)
              r.outcome
              r.outcome_code
              true))
          (receive_new env connection operation true)
          s
        ≡ done receipt t
      → IsStored env connection operation true s.scopes t receipt
  unfolding branch IsStored Persists IsExpected
  answered r false s t receipt found same h =
      let (p, q) = done-injective h in
      (
        ap (λ x. x.scopes) (sym q),
        r,
        ap (λ x. find_operation operation.operation_id x.operations) (sym q) ∙ found,
        same,
        sym p,
      )
  answered r true s t receipt found same h =
      let known =
        persist-IsStored env connection operation true s.operations s.scopes (r, found, same) in
      Persists-receive_new env connection operation true s.operations s.scopes
        (IsStored env connection operation true s.scopes) known s t receipt refl refl h

  stored :
      (existing : Option OperationRow) (s t : Tables) (receipt : Receipt)
      → find_operation operation.operation_id s.operations ≡ existing
      → operation_event operation.changes ≡ connection.event_id
      → receive_known env connection operation existing s ≡ done receipt t
      → (known : Bool) × IsStored env connection operation known s.scopes t receipt
  unfolding receive_known Persists IsExpected
  stored none s t receipt found event h = (
    false,
    Persists-receive_new env connection operation false s.operations s.scopes
        (IsStored env connection operation false s.scopes)
        (persist-IsStored env connection operation false s.operations s.scopes event) s t receipt
        refl refl h,
  )
  stored (some r) s t receipt found event h =
      let (same, h1) = raise_if->>= _ _ s _ h in
      (true, answered r (r.outcome == "waiting_dependency") s t receipt found same h1)

  second :
      (known : Bool) (scopes : List PacketIssuanceScope) (t : Tables) (receipt : Receipt) (at : ℕ)
      → (receipt.outcome == "waiting_dependency") ≡ false
      → IsStored env connection operation known scopes t receipt
      → receive_known
          (record env { now = at })
          connection
          operation
          (find_operation operation.operation_id t.operations)
          t
        ≡ done (record receipt { known = true }) t
  unfolding receive_known IsStored packet_receipt is_other
  second known scopes t receipt at settled (a, r, found, same, answer) =
      let again = record env { now = at } in
      let waits : (r.outcome == "waiting_dependency") ≡ false =
        ap (λ x. x.outcome == "waiting_dependency") (sym answer) ∙ settled in
      subst
        (λ o.
          receive_known again connection operation o t ≡ done (record receipt { known = true }) t)
        (sym found)
        (passes (is_other again connection operation r) (r.outcome == "waiting_dependency") _ _ _ t
            same waits
          ∙ ap {A = Receipt} (λ x. done (record x { known = true }) t) (sym answer))

  body_again :
      (s t later : Tables) (receipt : Receipt) (at : ℕ)
      → operation_event operation.changes ≡ connection.event_id
      → (receipt.outcome == "waiting_dependency") ≡ false
      → receive_body env connection operation s ≡ done receipt t
      → ReceivedLater t later
      → receive_body (record env { now = at }) connection operation later
        ≡ done (record receipt { known = true }) later
  unfolding receive_body find_packet_operation IsStored resume packet_receipt
  body_again s t later receipt at event settled h passed =
      let (scope, h1) = raise_if->>= _ _ s _ h in
      let (differs, h2) =
        raise_if->>= (scope_differs connection (find_scope connection.event_id s.scopes))
          (message "operation_scope_conflict") s
          (λ _.
            find_packet_operation operation.operation_id >>= receive_known env connection operation)
          h1 in
      let (known, (scopes_kept, r, found, is_same, answer)) = stored _ s t receipt refl event h2 in
      let waits : (r.outcome == "waiting_dependency") ≡ false =
        ap (λ x. x.outcome == "waiting_dependency") (sym answer) ∙ settled in
      let (j, still) = ReceivedLater-answered operation.operation_id r t later waits found passed in
      let again = record env { now = at } in
      let opened : scope_differs connection (find_scope connection.event_id later.scopes) ≡ false =
        ap (λ x. scope_differs connection (find_scope connection.event_id x)) (j ∙ scopes_kept)
        ∙ differs in
      goes_on _ (message "operation_scope_conflict") _ later scope
      ∙ goes_on (scope_differs connection (find_scope connection.event_id later.scopes))
          (message "operation_scope_conflict")
          (find_packet_operation operation.operation_id
            >>= receive_known again connection operation)
          later opened
      ∙ second known s.scopes later receipt at settled (j ∙ scopes_kept, r, still, is_same, answer)

  -- An operation on rows of the event of the connection that has been answered, and not with
  -- `waiting_dependency`, is answered again at any time, after any further operations from any
  -- connections and transactions on the feed, each committed or rolled back: with the same receipt, marked
  -- as known, and the tables stay as they are.
  pub receive_one-again :
      (s t later : Tables) (receipt : Receipt) (at : ℕ)
      → operation_event operation.changes ≡ connection.event_id
      → (receipt.outcome == "waiting_dependency") ≡ false
      → receive_one env connection operation s ≡ done receipt t
      → ReceivedLater t later
      → receive_one (record env { now = at }) connection operation later
        ≡ done (record receipt { known = true }) later
  unfolding receive_one within_tx
  receive_one-again s t later receipt at event settled h passed =
      ap (commit later) (body_again s t later receipt at event settled (commit-done s _ h) passed)
