-- ===== src/Service/Receive/Apart.antt =====
-- What an operation of `receiveOne` (internal/service/packet_issuance.go), and a transaction on the feed,
-- leave of the journal of operations.
use chrono_desk.Prelude.Classes.{string_eq, eq_iff, ◌==◌}
use chrono_desk.Store.Db.{
  after_done, done->>=, done-injective, raise_if->>=, resume-eq-done, state_of, within_tx, done,
}
use chrono_desk.Store.Operations.{
  Receipt, content_hash_of, find_operation, insert_operation, operation_row, save_packet_operation,
  set_outcome, update_outcome,
}
use chrono_desk.Packet.Operation.{Operation}
use chrono_desk.Service.Receive.Persisted.{Keeps-append_action, Keeps-publish_packet_operation}
use chrono_desk.Service.Receive.Keeps.{IsSameJournal, Keeps, Keeps-raise_if, same_journal}
use chrono_desk.Store.Feed.Archive.{IsMoved, archive_packet_feed_prefix-IsMoved, archived_through}
use chrono_desk.Store.Tables.{FeedRow, OperationRow, PacketIssuanceScope, Tables}
use chrono_desk.Packet.FeedChange.{FeedAction}
use chrono_desk.Service.Receive.Persist.{External, code_pointer, persist}
use chrono_desk.Packet.Model.{Change}
use chrono_desk.Store.Journal.{
  Call, publish_change, publish_operation, run_call, state_of-commit, archive, relay,
}
use chrono_desk.Prelude.{
  Bool, Bool-cases, List, Option, String, [], ap, false, if_false, if_true, if◌then◌else◌, inl, inr,
  none, refl, some, subst, sym, true, ℕ, ◌++◌, ◌∙◌, ◌∷◌, ◌≡◌,
}
use chrono_desk.Store.Publish.{
  relayed_row, server_change_row, append_action, operation_event, publish_packet_operation,
  publish_packet_server_change, relay_found, relay_packet_site_action,
}

find-set_outcome-other :
    (id other outcome : String) (code : Option String) (rs : List OperationRow)
    → (id == other) ≡ false
    → find_operation other (set_outcome id outcome code rs) ≡ find_operation other rs
unfolding find_operation set_outcome
find-set_outcome-other id other outcome code [] n = refl
find-set_outcome-other id other outcome code (x ∷ xs) n = elim (Bool-cases (x.operation_id == id)) [
  | inl p ↦
      let apart : (x.operation_id == other) ≡ false =
        subst (λ y. (y == other) ≡ false) (sym ((eq_iff x.operation_id id).0 p)) n in
      ap (find_operation other) (if_true _ _ _ p)
      ∙ if_false _ _ _ apart
      ∙ sym (if_false _ _ _ apart)
  | inr p ↦
      ap (find_operation other) (if_false _ _ _ p)
      ∙ ap (λ rest. if x.operation_id == other then some x else rest)
          (find-set_outcome-other id other outcome code xs n)
]

find-insert-other :
    (r : OperationRow) (other : String) (rs : List OperationRow)
    → (r.operation_id == other) ≡ false
    → find_operation other (rs ++ (r ∷ [])) ≡ find_operation other rs
unfolding find_operation
find-insert-other r other [] n = if_false _ _ _ n
find-insert-other r other (x ∷ xs) n =
    ap (λ rest. if x.operation_id == other then some x else rest) (find-insert-other r other xs n)

-- The scopes and the rows of all other operations are as they were.
unfoldable pub IsApart : String → List OperationRow → List PacketIssuanceScope → Tables → Type 0
IsApart id ops scopes t =
    (t.scopes ≡ scopes)
    × ((other : String)
        → (id == other) ≡ false
        → find_operation other t.operations ≡ find_operation other ops)

IsApart-save :
    (operation : Operation) (hash outcome : String) (code : Option String) (at : ℕ) (known : Bool)
    (s : Tables) {t : Tables}
    → save_packet_operation operation hash outcome code at known s ≡ done tt t
    → IsApart operation.operation_id s.operations s.scopes t
unfolding IsApart save_packet_operation update_outcome insert_operation operation_row
IsApart-save operation hash outcome code at true s h =
    let p = after_done (raise_if->>= _ _ s _ h).1 in
    (
      ap (λ x. x.scopes) p,
      λ other n.
          ap (λ x. find_operation other x.operations) p
          ∙ find-set_outcome-other operation.operation_id other outcome code s.operations n,
    )
IsApart-save operation hash outcome code at false s h =
    let row = operation_row operation (operation_event operation.changes) hash outcome code at in
    let (test, h1) = raise_if->>= _ _ s _ (done->>= _ _ _ (done->>= _ _ _ h)) in
    let p = after_done h1 in
    (
      ap (λ x. x.scopes) p,
      λ other n.
          ap (λ x. find_operation other x.operations) p
          ∙ find-insert-other row other s.operations n,
    )

pub persist-IsApart :
    (env : External) (operation : Operation) (known : Bool) (ops : List OperationRow)
    (scopes : List PacketIssuanceScope) (outcome code : String) (changes : List Change)
    (s t : Tables) (receipt : Receipt)
    → s.operations ≡ ops
    → s.scopes ≡ scopes
    → persist env operation known outcome code changes s ≡ done receipt t
    → IsApart operation.operation_id ops scopes t
unfolding persist IsApart Keeps IsSameJournal
persist-IsApart env operation known ops scopes outcome code changes s t receipt i j h =
    let hash = content_hash_of env.sha256 operation in
    let text = code_pointer code in
    let (u, s1, e1, h1) =
      resume-eq-done (save_packet_operation operation hash outcome text env.now known s) _ h in
    let (v, s2, e2, h2) =
      resume-eq-done (publish_packet_operation operation outcome text changes env.now s1) _ h1 in
    let kept = Keeps-publish_packet_operation operation outcome text changes env.now s1 in
    let (i2, j2) = subst (λ x. IsSameJournal s1 (state_of x)) e2 kept in
    let (answer, last) = done-injective h2 in
    let (a, others) = IsApart-save operation hash outcome text env.now known s e1 in
    (
      ap (λ x. x.scopes) (sym last) ∙ j2 ∙ a ∙ j,
      λ other n.
          ap (λ x. find_operation other x.operations) (sym last)
          ∙ ap (find_operation other) i2
          ∙ others other n
          ∙ ap (find_operation other) i,
    )

Keeps-relay_found :
    (event : String) (action : FeedAction) (at : ℕ) (found : Option FeedRow)
    → Keeps (relay_found event action at found)
unfolding relay_found
Keeps-relay_found event action at (some r) = Keeps-raise_if _ _
Keeps-relay_found event action at none = Keeps-append_action event (relayed_row action at)

-- The calls on the feed leave the journal as it is.
run_call-IsSameJournal : (c : Call) (s t : Tables) → run_call c s ≡ done tt t → IsSameJournal s t
unfolding run_call Keeps IsSameJournal relay_packet_site_action publish_packet_server_change IsMoved
    archived_through
run_call-IsSameJournal (relay event action at) s t h =
    let k = Keeps-relay_found event action at _ s in
    subst (λ x. IsSameJournal s (state_of x)) (done->>= _ _ _ h) k
run_call-IsSameJournal (publish_operation operation outcome code changes at) s t h =
    subst (λ x. IsSameJournal s (state_of x)) h
      (Keeps-publish_packet_operation operation outcome code changes at s)
run_call-IsSameJournal (publish_change event id source_code changes at) s t h =
    let row = server_change_row id source_code changes at in
    subst (λ x. IsSameJournal s (state_of x))
      (raise_if->>= _ _ s (λ _. append_action event row) h).1 (Keeps-append_action event row s)
run_call-IsSameJournal (archive event through at) s t h =
    let (r, s1, e1, h1) = resume-eq-done _ _ h in
    let (_, (_, _, _, _, moved)) = archive_packet_feed_prefix-IsMoved event through at s e1 in
    let p = after_done h1 ∙ moved in (ap (λ x. x.operations) p, ap (λ x. x.scopes) p)

pub within_tx-IsSameJournal :
    (c : Call) (s : Tables) → IsSameJournal s (state_of (within_tx (run_call c) s))
unfolding within_tx
within_tx-IsSameJournal c s =
    state_of-commit (IsSameJournal s) s (run_call c s) (run_call-IsSameJournal c s) (same_journal s)
