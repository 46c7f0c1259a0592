-- ===== src/Service/Receive/Persisted.antt =====
-- Every run of the receiver that answers ends in `persist` (internal/service/packet_issuance.go,
-- packet_issuance_numbers.go, packet_issuance_return.go).
use chrono_desk.Store.Db.{after_done, done, raise_if->>=, resume}
use chrono_desk.Service.Receive.Keeps.{
  IsSameJournal, Keeps, Keeps-bind, Keeps-execute, Keeps-or_raise, Keeps-pure, Keeps-query,
  Keeps-raise_if,
}
use chrono_desk.Packet.Model.{Change}
use chrono_desk.Prelude.{
  Bool, Bool-cases, List, Option, String, [], any, false, inl, inr, refl, some, true, ◌++◌, ◌∷◌,
  ◌≡◌, ap, if_false, if_true, or_parts, some-injective, sym, ℕ, ◌∙◌, not, ◌||◌, arith,
}
use chrono_desk.Service.Receive.Batch.{is_other}
use chrono_desk.Service.Receive.Persist.{External, PacketConnectionContext, packet_receipt}
use chrono_desk.Store.Publish.{
  operation_event, append_action, ensure_head, insert_action, publish_packet_operation,
  publish_unless, published_row,
}
use chrono_desk.Store.Operations.{
  Receipt, content_hash_of, find_operation, same_operation, set_outcome, save_packet_operation,
  update_outcome, allowed_outcome, insert_operation, operation_row,
}
use chrono_desk.Store.Tables.{OperationRow, PacketIssuanceScope, Tables, FeedRow}
use chrono_desk.Packet.Operation.{Operation}
use chrono_desk.Prelude.Classes.{string_eq, nat_eq, ◌==◌, eq_refl, eq_iff}

-- The row that a repeated operation finds, and that it is the same operation.
unfoldable pub IsStored :
    External
    → PacketConnectionContext
    → Operation
    → Bool
    → List PacketIssuanceScope
    → Tables
    → Receipt
    → Type 0
IsStored env connection operation known scopes t receipt =
    (t.scopes ≡ scopes)
    × (r : OperationRow) × (find_operation operation.operation_id t.operations ≡ some r)
    × (is_other env connection operation r ≡ false)
    × (receipt
        ≡ packet_receipt operation (content_hash_of env.sha256 operation) r.outcome r.outcome_code
            known)

-- What is stored before the operation is saved under `known`.
unfoldable pub IsExpected :
    External → PacketConnectionContext → Operation → Bool → List OperationRow → Type 0
IsExpected env connection operation true ops =
    (r : OperationRow) × (find_operation operation.operation_id ops ≡ some r)
    × (is_other env connection operation r ≡ false)
IsExpected env connection operation false ops =
    (operation_event operation.changes ≡ connection.event_id)

find-set_outcome :
    (id outcome : String) (code : Option String) (rs : List OperationRow) {r : OperationRow}
    → find_operation id rs ≡ some r
    → find_operation id (set_outcome id outcome code rs)
      ≡ some (record r { outcome = outcome; outcome_code = code })
unfolding find_operation set_outcome
find-set_outcome id outcome code [] h = cc
find-set_outcome id outcome code (x ∷ xs) h = elim (Bool-cases (x.operation_id == id)) [
  | inl p ↦
      ap (find_operation id) (if_true _ _ _ p)
      ∙ if_true _ _ _ p
      ∙ ap {A = OperationRow} (λ y. some (record y { outcome = outcome; outcome_code = code }))
          (some-injective (sym (if_true _ _ _ p) ∙ h))
  | inr p ↦
      ap (find_operation id) (if_false _ _ _ p)
      ∙ if_false _ _ _ p
      ∙ find-set_outcome id outcome code xs (sym (if_false _ _ _ p) ∙ h)
]

find-insert :
    (r : OperationRow) (rs : List OperationRow)
    → any (same_operation r) rs ≡ false
    → find_operation r.operation_id (rs ++ (r ∷ [])) ≡ some r
unfolding find_operation same_operation
find-insert r [] h = rw (eq_refl r.operation_id) refl
find-insert r (x ∷ xs) h =
    let (here, rest) = or_parts (same_operation r x) (any (same_operation r) xs) h in
    let (other, _) = or_parts (x.operation_id == r.operation_id) _ here in
    if_false (x.operation_id == r.operation_id) (some x) _ other ∙ find-insert r xs rest

-- The writers of the feed leave the journal of operations as it is.
pub Keeps-append_action : (event : String) (r : FeedRow) → Keeps (append_action event r)
unfolding append_action ensure_head insert_action IsSameJournal
Keeps-append_action event r =
    Keeps-bind _ _
      (Keeps-bind _ _ (Keeps-query _) λ found.
        Keeps-bind _ _ (Keeps-query _)
          λ known. Keeps-bind _ _ (Keeps-raise_if _ _) λ u. Keeps-execute _ (λ s. (refl, refl)))
      λ u. Keeps-bind _ _ (Keeps-query _) λ found. Keeps-bind _ _ (Keeps-or_raise _ _) λ h.
        Keeps-bind _ _
          (Keeps-bind _ _ (Keeps-query _) λ taken.
            Keeps-bind _ _ (Keeps-query _)
              λ known. Keeps-bind _ _ (Keeps-raise_if _ _) λ u. Keeps-execute _ (λ s. (refl, refl)))
          λ u. Keeps-execute _ (λ s. (refl, refl))

Keeps-publish_unless :
    (skip : Bool) (operation : Operation) (outcome : String) (code : Option String)
    (changes : List Change) (at : ℕ)
    → Keeps (publish_unless skip operation outcome code changes at)
unfolding publish_unless
Keeps-publish_unless true operation outcome code changes at = Keeps-pure _
Keeps-publish_unless false operation outcome code changes at =
    Keeps-append_action _ (published_row operation outcome code changes at)

pub Keeps-publish_packet_operation :
    (operation : Operation) (outcome : String) (code : Option String) (changes : List Change)
    (at : ℕ)
    → Keeps (publish_packet_operation operation outcome code changes at)
unfolding publish_packet_operation
Keeps-publish_packet_operation operation outcome code changes at =
    Keeps-bind _ _ (Keeps-query _)
      λ exists. Keeps-publish_unless _ operation outcome code changes at

-- The row after the saving.
pub saved :
    (env : External) (connection : PacketConnectionContext) (operation : Operation) (known : Bool)
    (outcome : String) (code : Option String) (s : Tables) {t : Tables}
    → IsExpected env connection operation known s.operations
    → save_packet_operation operation
        (content_hash_of env.sha256 operation)
        outcome
        code
        env.now
        known
        s
      ≡ done tt t
    → (t.scopes ≡ s.scopes)
      × (r : OperationRow) × (find_operation operation.operation_id t.operations ≡ some r)
      × (is_other env connection operation r ≡ false)
      × (r.outcome ≡ outcome)
      × (r.outcome_code ≡ code)
unfolding IsExpected save_packet_operation update_outcome is_other insert_operation operation_row
    resume
saved env connection operation true outcome code s (r, found, same) h =
    let p = after_done (raise_if->>= _ _ s _ h).1 in
    (
      ap (λ x. x.scopes) p,
      record r { outcome = outcome; outcome_code = code },
      ap (λ x. find_operation operation.operation_id x.operations) p
          ∙ find-set_outcome operation.operation_id outcome code s.operations found,
      same,
      refl,
      refl,
    )
saved env connection operation false outcome code s event h =
    let row =
      operation_row operation (operation_event operation.changes)
        (content_hash_of env.sha256 operation) outcome code env.now in
    let (test, h1) = raise_if->>= _ _ s _ h in
    let (free, _) =
      or_parts (any (same_operation row) s.operations || not (allowed_outcome outcome)) _ test in
    let (fresh, _) = or_parts (any (same_operation row) s.operations) _ free in
    let p = after_done h1 in
    (
      ap (λ x. x.scopes) p,
      row,
      ap (λ x. find_operation operation.operation_id x.operations) p
          ∙ find-insert row s.operations fresh,
      ground (
        arith,
        eq_refl (content_hash_of env.sha256 operation),
        eq_refl operation.scope_id,
        eq_refl operation.origin_instance_id,
        (eq_iff (operation_event operation.changes) connection.event_id).1 event,
      ),
      refl,
      refl,
    )
