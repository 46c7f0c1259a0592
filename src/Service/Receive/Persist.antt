-- ===== src/Service/Receive/Persist.antt =====
-- The outcome of an operation and its storing: `persist`, `packetReceipt` and `packetMember` of
-- internal/service/packet_issuance.go.
use chrono_desk.Prelude.{Bool, List, Option, String, [], if◌then◌else◌, none, some, ℕ, ◌∷◌}
use chrono_desk.Service.Decision.{
  Decision, Reason, StoredOperation, applied, conflict, current_state_changed, equivalent,
  index_panic, operation_effect_changed, packet_merge_decision, refused, waiting_dependency,
}
use chrono_desk.Store.Publish.{publish_packet_operation}
use chrono_desk.Store.Operations.{Receipt, content_hash_of, find_operation, save_packet_operation}
use chrono_desk.Store.Registrations.{packet_registration_member}
use chrono_desk.Store.Tables.{MemberRow, PacketIssuanceScope, Tables}
use chrono_desk.Store.Db.{◌>>=◌, ◌>>◌, Db, message, or_raise, pure, query}
use chrono_desk.Packet.Operation.{Operation}
use chrono_desk.Packet.Json.{Value}
use chrono_desk.Packet.Model.{
  person_eq, invalid, reserve_slot, Change, Code, Registration, correction_review_required,
  invalid_bib, invalid_bootstrap, invalid_command, invalid_feed_response, invalid_operation,
  invalid_operation_batch, invalid_operation_changes, invalid_operation_command, invalid_person,
  invalid_records, invalid_target, missing_person, number_already_assigned, number_occupied,
  person_identity_reused, race_change_requires_unnumbered, reason_required,
  registration_already_exists, registration_not_found, status_review_required, target_not_available,
  timing_review_required, transfer_review_required,
}
use chrono_desk.Text.Chars.{source_code_pattern}
use chrono_desk.Text.Date.{Date}
use chrono_desk.Text.Decimal.{ℤ}
use chrono_desk.Prelude.Classes.{string_eq, bool_eq, option_eq, ◌==◌}

-- What the receiver takes from other packages: SHA-256 in hexadecimal digits, the JSON decoder, the age on the day of a
-- race, and the clock in milliseconds.
pub record External : Type 0 where
  pub sha256 : List ℕ → String
  pub decode : List ℕ → Option Value
  pub age_on : Date → Date → Bool → ℤ
  pub now : ℕ

pub record PacketConnectionContext : Type 0 where
  pub event_id : String
  pub scope_id : String
  pub origin_instance_id : String

unfoldable pub find_scope : String → List PacketIssuanceScope → Option PacketIssuanceScope
find_scope event [] = none
find_scope event (s ∷ ss) = if s.event_id == event then some s else find_scope event ss

unfoldable pub packet_receipt : Operation → String → String → Option String → Bool → Receipt
packet_receipt operation hash outcome code known = record {
  operation_id = operation.operation_id;
  content_hash = hash;
  outcome = outcome;
  known = known;
  code = code;
}

unfoldable pub code_pointer : String → Option String
code_pointer code =
    if code == ""
    then none
    else some (if source_code_pattern code then code else "transition_review_required")

-- `persist`
unfoldable pub persist :
    External → Operation → Bool → String → String → List Change → Db Tables Receipt
unfolding code_pointer save_packet_operation publish_packet_operation packet_receipt content_hash_of
persist env operation known outcome code changes = do
  let hash = content_hash_of env.sha256 operation
  save_packet_operation operation hash outcome (code_pointer code) env.now known
  publish_packet_operation operation outcome (code_pointer code) changes env.now
  pure (packet_receipt operation hash outcome (code_pointer code) known)

-- `packetMember`
unfoldable pub packet_member : Registration → MemberRow
unfolding packet_registration_member
packet_member row = record (packet_registration_member row none) {
  number = none;
  epc = none;
  team = none;
  city = none;
}

unfoldable pub code_text : Code → String
code_text invalid_records = "invalid_records"
code_text invalid_person = "invalid_person"
code_text invalid_command = "invalid_command"
code_text invalid_bib = "invalid_bib"
code_text invalid_target = "invalid_target"
code_text registration_not_found = "registration_not_found"
code_text registration_already_exists = "registration_already_exists"
code_text number_already_assigned = "number_already_assigned"
code_text number_occupied = "number_occupied"
code_text reason_required = "reason_required"
code_text timing_review_required = "timing_review_required"
code_text status_review_required = "status_review_required"
code_text transfer_review_required = "transfer_review_required"
code_text reserve_slot = "reserve_slot"
code_text missing_person = "missing_person"
code_text race_change_requires_unnumbered = "race_change_requires_unnumbered"
code_text person_identity_reused = "person_identity_reused"
code_text target_not_available = "target_not_available"
code_text correction_review_required = "correction_review_required"
code_text invalid = "invalid"
code_text invalid_operation = "invalid_operation"
code_text invalid_operation_batch = "invalid_operation_batch"
code_text invalid_operation_changes = "invalid_operation_changes"
code_text invalid_operation_command = "invalid_operation_command"
code_text invalid_bootstrap = "invalid_bootstrap"
code_text invalid_feed_response = "invalid_feed_response"

unfoldable pub reason_text : Reason → String
unfolding code_text
reason_text (refused e) = code_text e
reason_text current_state_changed = "current_state_changed"
reason_text operation_effect_changed = "operation_effect_changed"

-- The outcome, the code and the changes that `packetMergeDecision` returns.
pub record Verdict : Type 0 where
  pub outcome : String
  pub code : String
  pub changes : List Change

unfoldable pub verdict_of : Decision → Option Verdict
unfolding reason_text
verdict_of (conflict r) = some (record { outcome = "conflict"; code = reason_text r; changes = [] })
verdict_of equivalent = some (record { outcome = "equivalent"; code = ""; changes = [] })
verdict_of waiting_dependency = some (record {
  outcome = "waiting_dependency";
  code = "correction_dependency_missing";
  changes = [];
})
verdict_of index_panic = none
verdict_of (applied changes) = some (record { outcome = "applied"; code = ""; changes = changes })

-- `FindPacketOperation` as the decision uses it.
unfoldable pub stored_operation : External → Tables → String → Option StoredOperation
unfolding find_operation
stored_operation env s id = elim (find_operation id s.operations) [
  | none ↦ none
  | some r ↦ some (record { outcome = r.outcome; operation = env.decode r.operation_json })
]

unfoldable pub merge_verdict : External → List Registration → Operation → Db Tables Verdict
unfolding verdict_of stored_operation packet_merge_decision
merge_verdict env current operation = do
  verdict ←
      query (λ s. verdict_of (packet_merge_decision (stored_operation env s) current operation))
  or_raise verdict (message "index out of range")
