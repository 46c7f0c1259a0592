-- ===== src/Service/SiteFeed/Resolution.antt =====
-- The resolution of a conflict by the site: `applyPacketResolution` and `packetConflictOccurrence` of
-- internal/service/packet_issuance_feed.go.
use chrono_desk.Store.Operations.Resolutions.{
  find_packet_resolution_by_input, save_packet_resolution,
}
use chrono_desk.Packet.ParseOperation.{is_int}
use chrono_desk.Store.Site.{find_packet_site_feed_action}
use chrono_desk.Store.Operations.{find_packet_operation, save_received_packet_operation}
use chrono_desk.Store.Tables.{OperationRow, ResolutionRow, SiteFeedRow, Tables}
use chrono_desk.Packet.Operation.{Operation}
use chrono_desk.Packet.FeedChange.{FeedAction}
use chrono_desk.Service.Receive.Persist.{External}
use chrono_desk.Prelude.{
  [], Bool, List, Option, String, false, if◌then◌else◌, length, none, not, some, true, ℕ, ◌&&◌,
  ◌||◌, ◌∷◌,
}
use chrono_desk.Store.Db.{◌>>=◌, ◌>>◌, Db, branch, message, or_raise, pure, raise_if}
use chrono_desk.Prelude.Classes.{string_eq, nat_eq, ◌==◌}
use chrono_desk.Packet.Json.{get, Fields, Value, as_object, string_value}
use chrono_desk.Service.SiteFeed.Plans.{Application, apply_packet_resolution_changes}

unfoldable pub packet_local_operation_outcome : String → String → String
packet_local_operation_outcome application site_outcome =
    if application == "applied"
    then "applied"
    else if application == "observed" && site_outcome == "equivalent"
    then "equivalent"
    else "conflict"

is_input : String → Option Fields → Bool
is_input id none = false
is_input id (some operation) = string_value (get "operationId" operation) == id

is_conflict_action : String → Option Fields → Bool
unfolding is_input
is_conflict_action id none = false
is_conflict_action id (some action) =
    string_value (get "actionId" action) == id
    && string_value (get "kind" action) == "operation"
    && string_value (get "outcome" action) == "conflict"
    && is_input id (as_object (get "operation" action))

decoded_object : Option Value → Option Fields
decoded_object none = none
decoded_object (some value) = as_object value

-- The stored text is the canonical one of an action that the parser has accepted, on which `json.Unmarshal`
-- and `decodeValue` agree.
unfoldable pub packet_conflict_occurrence : External → Option SiteFeedRow → String → Bool
unfolding is_conflict_action decoded_object
packet_conflict_occurrence env none id = false
packet_conflict_occurrence env (some r) id =
    is_conflict_action id (decoded_object (env.decode r.action_json))

foreign_input : String → Operation → Option OperationRow → Bool
foreign_input event operation none = true
foreign_input event operation (some r) =
    not (r.event_id == event)
    || not (r.scope_id == operation.scope_id)
    || not (r.baseline_id == operation.baseline_id)

-- `SaveReceivedPacketOperation` of the resolution itself.
save_resolution_operation :
    External → String → FeedAction → Operation → String → Option String → ℕ → Db Tables (Unit {0})
unfolding save_received_packet_operation
save_resolution_operation env event action operation outcome code at =
    save_received_packet_operation env.sha256 operation event outcome code action.outcome
      action.code at

decide_first : External → String → FeedAction → Operation → String → ℕ → Db Tables Application
unfolding apply_packet_resolution_changes save_packet_resolution save_resolution_operation
    packet_local_operation_outcome
decide_first env event action operation input at = do
  applied ← apply_packet_resolution_changes env event action input
  save_resolution_operation env event action operation
      (packet_local_operation_outcome applied.application action.outcome) applied.code at
  save_packet_resolution (record {
    resolution_operation_id = operation.operation_id;
    event_id = event;
    input_operation_id = input;
    keep_input = length operation.command.keep == 1;
    reason = operation.command.reason;
    recorded_at = at;
  })
  pure applied

-- Another decision stays the first one.
unfoldable pub decide_resolution :
    External
    → String
    → FeedAction
    → Operation
    → String
    → ℕ
    → Option ResolutionRow
    → Db Tables Application
unfolding decide_first save_resolution_operation
decide_resolution env event action operation input at none =
    decide_first env event action operation input at
decide_resolution env event action operation input at (some existing) =
    branch (existing.resolution_operation_id == operation.operation_id)
      (pure (record { application = "observed"; code = none }))
      (do
        let code = some "packet_resolution_already_decided"
        save_resolution_operation env event action operation "conflict" code at
        pure (record { application = "review"; code = code }))

-- The only input.
one_input : List String → Option String
one_input (input ∷ []) = some input
one_input _ = none

unfoldable pub apply_packet_resolution :
    External → String → FeedAction → Operation → ℕ → Db Tables Application
unfolding one_input find_packet_operation foreign_input find_packet_site_feed_action
    packet_conflict_occurrence save_resolution_operation find_packet_resolution_by_input
    decide_resolution
apply_packet_resolution env event action operation at = do
  raise_if (not (is_int operation.schema_version 2)) (message "invalid_feed_response")
  input ← or_raise (one_input operation.command.inputs) (message "invalid_feed_response")
  stored ← find_packet_operation input
  raise_if (foreign_input event operation stored) (message "packet_resolution_input_missing")
  occurrence ← find_packet_site_feed_action input
  raise_if (not (packet_conflict_occurrence env occurrence input))
      (message "packet_resolution_input_missing")
  branch (action.outcome == "conflict")
      (do
        save_resolution_operation env event action operation "conflict" action.code at
        pure (record { application = "review"; code = action.code }))
      (do
        existing ← find_packet_resolution_by_input input
        decide_resolution env event action operation input at existing)
