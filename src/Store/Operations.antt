-- ===== src/Store/Operations.antt =====
-- The journal of operations in internal/infrastructure/sqlite/packet_issuance_store.go: `FindPacketOperation`,
-- `FindPacketOriginSequence`, `PacketDependenciesApplied`, `SavePacketOperation`,
-- `SaveReceivedPacketOperation`, `MarkPacketOperationSiteReceipt` and the resolutions; and `ContentHash` of
-- internal/packetissuance/validation.go, whose SHA-256 in hexadecimal digits is the parameter `sha256`.
pub mod Resolutions
use chrono_desk.Text.Chars.{codes, is_space}
use chrono_desk.Prelude.{
  Bool, List, Option, String, [], all, any, false, if◌then◌else◌, none, not, some, true, ℕ, ◌&&◌,
  ◌++◌, ◌+◌, ◌||◌, ◌∷◌,
}
use chrono_desk.Store.Tables.{OperationRow, Tables}
use chrono_desk.Store.Db.{◌>>=◌, ◌>>◌, Db, constraint, execute, message, query, raise_if}
use chrono_desk.Store.Publish.{operation_event}
use chrono_desk.Packet.Operation.{Operation}
use Prim.Native.String.{◌++◌ as str_append}
use chrono_desk.Prelude.Classes.{string_eq, nat_eq, bool_eq, list_eq, option_eq, ◌==◌}

-- `Receipt` of internal/packetissuance/model.go
pub record Receipt : Type 0 where
  pub operation_id : String
  pub content_hash : String
  pub outcome : String
  pub known : Bool
  pub code : Option String

unfoldable pub content_hash_of : (List ℕ → String) → Operation → String
content_hash_of sha256 operation = str_append "sha256:" (sha256 operation.canonical)

unfoldable pub find_operation : String → List OperationRow → Option OperationRow
find_operation id [] = none
find_operation id (r ∷ rs) = if r.operation_id == id then some r else find_operation id rs

unfoldable pub find_packet_operation : String → Db Tables (Option OperationRow)
unfolding find_operation
find_packet_operation id = query λ s. find_operation id s.operations

unfoldable pub find_origin : String → ℕ → List OperationRow → Option OperationRow
find_origin origin sequence [] = none
find_origin origin sequence (r ∷ rs) =
    if r.origin_instance_id == origin && r.origin_sequence == sequence
    then some r
    else find_origin origin sequence rs

unfoldable pub find_packet_origin_sequence : String → ℕ → Db Tables (Option OperationRow)
unfolding find_origin
find_packet_origin_sequence origin sequence = query λ s. find_origin origin sequence s.operations

is_applied : String → Bool
is_applied outcome = outcome == "applied" || outcome == "equivalent"

-- The four parts of the query of `PacketDependenciesApplied`.
unfoldable pub dependency_applied : String → String → Tables → Bool
unfolding is_applied
dependency_applied event id s =
    any (λ r. r.event_id == event && r.operation_id == id && is_applied r.outcome) s.operations
    || any (λ r. r.event_id == event && r.action_id == id && is_applied r.outcome) s.feed_actions
    || any (λ a. a.row.event_id == event && a.row.action_id == id && is_applied a.row.outcome)
        s.feed_archives
    || any
        (λ r.
          r.event_id == event
          && r.action_id == id
          && (r.application == "applied" || r.application == "observed"))
        s.site_feed_actions

unfoldable pub packet_dependencies_applied : String → List String → Db Tables Bool
unfolding dependency_applied
packet_dependencies_applied event ids =
    query λ s. all (λ id. not (all is_space (codes id)) && dependency_applied event id s) ids

-- The primary key and the unique columns of packet_issuance_operations.
unfoldable pub same_operation : OperationRow → OperationRow → Bool
same_operation r o =
    o.operation_id == r.operation_id
    || (o.origin_instance_id == r.origin_instance_id && o.origin_sequence == r.origin_sequence)

unfoldable pub allowed_outcome : String → Bool
allowed_outcome outcome =
    outcome == "applied"
    || outcome == "equivalent"
    || outcome == "waiting_dependency"
    || outcome == "conflict"
    || outcome == "rejected"

unfoldable pub insert_operation : OperationRow → Db Tables (Unit {0})
unfolding same_operation allowed_outcome
insert_operation r = do
  taken ← query (λ s. any (same_operation r) s.operations)
  known ← query (λ s. any (λ e. e.id == r.event_id) s.events)
  raise_if (taken || not (allowed_outcome r.outcome) || not known) constraint
  execute λ s. record s { operations = s.operations ++ (r ∷ []) }

unfoldable pub set_outcome : String → String → Option String → List OperationRow → List OperationRow
set_outcome id outcome code [] = []
set_outcome id outcome code (r ∷ rs) =
    if r.operation_id == id
    then record r { outcome = outcome; outcome_code = code } ∷ rs
    else r ∷ set_outcome id outcome code rs

unfoldable pub update_outcome : String → String → Option String → Db Tables (Unit {0})
unfolding set_outcome allowed_outcome
update_outcome id outcome code = do
  raise_if (not (allowed_outcome outcome)) constraint
  execute λ s. record s { operations = set_outcome id outcome code s.operations }

unfoldable pub operation_row :
    Operation → String → String → String → Option String → ℕ → OperationRow
operation_row operation event hash outcome code recorded_at = record {
  operation_id = operation.operation_id;
  event_id = event;
  scope_id = operation.scope_id;
  baseline_id = operation.baseline_id;
  origin_instance_id = operation.origin_instance_id;
  origin_sequence = operation.origin_sequence;
  content_hash = hash;
  operation_json = operation.canonical;
  outcome = outcome;
  outcome_code = code;
  recorded_at = recorded_at;
  site_acknowledged = false;
  site_outcome = none;
  site_outcome_code = none;
  site_attempts = 0;
}

unfoldable pub save_packet_operation :
    Operation → String → String → Option String → ℕ → Bool → Db Tables (Unit {0})
unfolding update_outcome operation_row insert_operation operation_event
save_packet_operation operation hash outcome code recorded_at true =
    update_outcome operation.operation_id outcome code
save_packet_operation operation hash outcome code recorded_at false =
    insert_operation
      (operation_row operation (operation_event operation.changes) hash outcome code recorded_at)

-- `site_acknowledged=1` with the outcome that the site has reported.
set_site_outcome : String → String → Option String → List OperationRow → List OperationRow
set_site_outcome id outcome code [] = []
set_site_outcome id outcome code (r ∷ rs) =
    if r.operation_id == id
    then record r {
      site_acknowledged = true;
      site_outcome = some outcome;
      site_outcome_code = code;
    }
      ∷ rs
    else r ∷ set_site_outcome id outcome code rs

-- The part of `SaveReceivedPacketOperation` on an operation that is stored.
save_known :
    Operation → String → String → String → Option String → OperationRow → Db Tables (Unit {0})
unfolding set_site_outcome
save_known operation hash event site_outcome site_code existing = do
  raise_if
      (not (existing.event_id == event)
        || not (existing.scope_id == operation.scope_id)
        || not (existing.content_hash == hash)
        || not (existing.operation_json == operation.canonical))
      (message "packet_feed_action_identity_conflict")
  execute λ s. record s {
    operations = set_site_outcome operation.operation_id site_outcome site_code s.operations;
  }

unfoldable pub other_owner : String → Option OperationRow → Bool
other_owner id none = false
other_owner id (some r) = not (r.operation_id == id)

save_received :
    (List ℕ → String)
    → Operation
    → String
    → String
    → Option String
    → String
    → Option String
    → ℕ
    → Option OperationRow
    → Db Tables (Unit {0})
unfolding content_hash_of save_known find_packet_origin_sequence other_owner insert_operation
    operation_row
save_received sha256 operation event outcome code site_outcome site_code recorded_at (some r) =
    save_known operation (content_hash_of sha256 operation) event site_outcome site_code r
save_received sha256 operation event outcome code site_outcome site_code recorded_at none = do
  owner ← find_packet_origin_sequence operation.origin_instance_id operation.origin_sequence
  raise_if (other_owner operation.operation_id owner)
      (message "packet_feed_action_identity_conflict")
  insert_operation
      (record (operation_row operation event (content_hash_of sha256 operation) outcome code
        recorded_at) {
          site_acknowledged = true;
          site_outcome = some site_outcome;
          site_outcome_code = site_code;
        })

unfoldable pub save_received_packet_operation :
    (List ℕ → String)
    → Operation
    → String
    → String
    → Option String
    → String
    → Option String
    → ℕ
    → Db Tables (Unit {0})
unfolding save_received find_packet_operation
save_received_packet_operation sha256 operation event outcome code site_outcome site_code
      recorded_at =
    do
      existing ← find_packet_operation operation.operation_id
      save_received sha256 operation event outcome code site_outcome site_code recorded_at existing

-- `UPDATE ... WHERE operation_id=? AND content_hash=?`
set_receipt : Receipt → List OperationRow → List OperationRow
set_receipt receipt [] = []
set_receipt receipt (r ∷ rs) =
    if r.operation_id == receipt.operation_id && r.content_hash == receipt.content_hash
    then record r {
      site_acknowledged = not (receipt.outcome == "waiting_dependency");
      site_outcome = some receipt.outcome;
      site_outcome_code = receipt.code;
      site_attempts = r.site_attempts + 1;
    }
      ∷ rs
    else r ∷ set_receipt receipt rs

unfoldable pub mark_packet_operation_site_receipt : Receipt → Db Tables (Unit {0})
unfolding set_receipt
mark_packet_operation_site_receipt receipt = do
  found ← query (λ s.
      any (λ r. r.operation_id == receipt.operation_id && r.content_hash == receipt.content_hash)
        s.operations)
  raise_if (not found) (message "packet operation receipt identity mismatch")
  execute λ s. record s { operations = set_receipt receipt s.operations }
