-- ===== src/Store/Publish.antt =====
-- The writers of the feed in internal/infrastructure/sqlite/packet_issuance_store.go:
-- `RelayPacketSiteAction`, `PublishPacketOperation` and `PublishPacketServerChange`.
pub mod Append
pub mod Contiguous
use chrono_desk.Store.Changes.{
  is_race_change, published_changes, valid_packet_lan_uuid, without_feed_timing_evidence,
  without_timing_evidence,
}
use chrono_desk.Prelude.{
  Bool, List, Option, String, [], any, false, if◌then◌else◌, is_some, none, not, some, true, ℕ,
  ◌&&◌, ◌++◌, ◌+◌, ◌||◌, ◌∷◌, length, within,
}
use Prim.Native.String.{len}
use chrono_desk.Store.Feed.{find_head}
use chrono_desk.Store.Tables.{FeedHead, FeedRow, Tables}
use chrono_desk.Store.Db.{
  ◌>>=◌, ◌>>◌, Db, constraint, execute, message, no_rows, or_raise, pure, query, raise_if,
}
use chrono_desk.Packet.FeedChange.{FeedAction}
use chrono_desk.Packet.Operation.{Operation}
use chrono_desk.Packet.ParseOperation.{is_int}
use chrono_desk.Packet.Model.{Change, CommandType}
use chrono_desk.Prelude.Classes.{string_eq, nat_eq, option_eq, ◌==◌}

-- `INSERT INTO packet_issuance_feed_heads ... ON CONFLICT(event_id) DO NOTHING`
unfoldable pub with_head : String → List FeedHead → List FeedHead
with_head event [] =
    record { event_id = event; last_sequence = 0; first_available_sequence = 1 } ∷ []
with_head event (h ∷ hs) = if h.event_id == event then h ∷ hs else h ∷ with_head event hs

unfoldable pub ensure_head : String → Db Tables (Unit {0})
unfolding find_head with_head
ensure_head event = do
  found ← query (λ s. find_head event s.feed_heads)
  known ← query (λ s. any (λ e. e.id == event) s.events)
  raise_if (not (is_some found) && not known) constraint
  execute λ s. record s { feed_heads = with_head event s.feed_heads }

-- The primary key and the unique columns of packet_issuance_feed_actions.
unfoldable pub same_action : FeedRow → FeedRow → Bool
same_action r a =
    a.action_id == r.action_id
    || (a.event_id == r.event_id && a.sequence == r.sequence)
    || (is_some r.source_operation_id && a.source_operation_id == r.source_operation_id)

-- The checks of the columns `kind` and `outcome`.
unfoldable pub allowed_action : FeedRow → Bool
allowed_action r =
    (r.kind == "operation" || r.kind == "server_change")
    && (r.outcome == "applied" || r.outcome == "equivalent" || r.outcome == "conflict")

unfoldable pub insert_action : FeedRow → Db Tables (Unit {0})
unfolding same_action allowed_action
insert_action r = do
  taken ← query (λ s. any (same_action r) s.feed_actions)
  known ← query (λ s. any (λ e. e.id == r.event_id) s.events)
  raise_if (taken || not (allowed_action r) || not known) constraint
  execute λ s. record s { feed_actions = s.feed_actions ++ (r ∷ []) }

-- `UPDATE packet_issuance_feed_heads SET last_sequence=? WHERE event_id=?`
unfoldable pub set_last : String → ℕ → List FeedHead → List FeedHead
set_last event value [] = []
set_last event value (h ∷ hs) =
    if h.event_id == event
    then record h { last_sequence = value } ∷ hs
    else h ∷ set_last event value hs

-- The statements with which the three writers end: the next number, the action under it, the head.
unfoldable pub append_action : String → FeedRow → Db Tables (Unit {0})
unfolding ensure_head find_head insert_action set_last
append_action event r = do
  ensure_head event
  found ← query (λ s. find_head event s.feed_heads)
  h ← or_raise found no_rows
  insert_action (record r { event_id = event; sequence = h.last_sequence + 1 })
  execute λ s. record s { feed_heads = set_last event (h.last_sequence + 1) s.feed_heads }

unfoldable pub find_action : String → List FeedRow → Option FeedRow
find_action id [] = none
find_action id (r ∷ rs) = if r.action_id == id then some r else find_action id rs

-- An action that is there already must be another occurrence of this one.
same_occurrence : FeedAction → FeedRow → Bool
same_occurrence action r =
    action.kind == r.kind
    && (r.kind == "operation" || r.kind == "server_change")
    && r.source_operation_id == some action.action_id

unfoldable pub relayed_row : FeedAction → ℕ → FeedRow
unfolding without_feed_timing_evidence
relayed_row action recorded_at = record {
  action_id = action.action_id;
  event_id = "";
  sequence = 0;
  kind = action.kind;
  source_code = action.source_code;
  source_operation_id = if is_some action.operation then some action.action_id else none;
  outcome = action.outcome;
  outcome_code = action.code;
  changes = without_feed_timing_evidence action.changes;
  recorded_at = recorded_at;
}

unfoldable pub relay_found : String → FeedAction → ℕ → Option FeedRow → Db Tables (Unit {0})
unfolding same_occurrence relayed_row append_action
relay_found event action recorded_at (some r) =
    raise_if (not (same_occurrence action r)) (message "packet_feed_action_identity_conflict")
relay_found event action recorded_at none = append_action event (relayed_row action recorded_at)

unfoldable pub relay_packet_site_action : String → FeedAction → ℕ → Db Tables (Unit {0})
unfolding find_action relay_found
relay_packet_site_action event action recorded_at = do
  found ← query (λ s. find_action action.action_id s.feed_actions)
  relay_found event action recorded_at found

unfoldable pub published_row : Operation → String → Option String → List Change → ℕ → FeedRow
unfolding published_changes is_race_change is_int
published_row operation outcome code changes recorded_at = record {
  action_id = operation.operation_id;
  event_id = "";
  sequence = 0;
  kind = if is_race_change operation.command.type then "server_change" else "operation";
  source_code =
      if is_int operation.schema_version 2
      then "admin.packet_issuance_resolution"
      else "pwa.packet_issuance";
  source_operation_id = some operation.operation_id;
  outcome = outcome;
  outcome_code = code;
  changes = published_changes operation changes;
  recorded_at = recorded_at;
}

-- `operation.Changes[0].Before.EventID`; a parsed operation has a change.
unfoldable pub operation_event : List Change → String
operation_event [] = ""
operation_event (c ∷ cs) = c.before.event_id

-- The operation is in the feed or in its archive.
unfoldable pub is_published : String → Tables → Bool
is_published id s =
    any (λ r. r.source_operation_id == some id) s.feed_actions
    || any (λ a. a.row.source_operation_id == some id) s.feed_archives

unfoldable pub is_withheld : CommandType → String → Bool
unfolding is_race_change
is_withheld type outcome =
    outcome == "waiting_dependency"
    || outcome == "rejected"
    || (is_race_change type && not (outcome == "applied"))

unfoldable pub publish_unless :
    Bool → Operation → String → Option String → List Change → ℕ → Db Tables (Unit {0})
unfolding published_row append_action operation_event
publish_unless true operation outcome code changes recorded_at = pure tt
publish_unless false operation outcome code changes recorded_at =
    append_action (operation_event operation.changes)
      (published_row operation outcome code changes recorded_at)

unfoldable pub publish_packet_operation :
    Operation → String → Option String → List Change → ℕ → Db Tables (Unit {0})
unfolding publish_unless is_published is_withheld
publish_packet_operation operation outcome code changes recorded_at = do
  exists ← query (is_published operation.operation_id)
  publish_unless (is_withheld operation.command.type outcome || exists) operation outcome code
      changes recorded_at

unfoldable pub server_change_row : String → String → List Change → ℕ → FeedRow
unfolding without_timing_evidence
server_change_row id source_code changes recorded_at = record {
  action_id = id;
  event_id = "";
  sequence = 0;
  kind = "server_change";
  source_code = source_code;
  source_operation_id = none;
  outcome = "applied";
  outcome_code = none;
  changes = without_timing_evidence changes;
  recorded_at = recorded_at;
}

unfoldable pub publish_packet_server_change :
    String → String → String → List Change → ℕ → Db Tables (Unit {0})
unfolding valid_packet_lan_uuid server_change_row append_action
publish_packet_server_change event id source_code changes recorded_at = do
  raise_if
      (not (valid_packet_lan_uuid id)
        || not (within 1 20000 (length changes))
        || not (within 1 64 (len source_code)))
      (message "invalid packet server change")
  append_action event (server_change_row id source_code changes recorded_at)
