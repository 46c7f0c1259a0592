-- ===== src/Service/SiteFeed/Page.antt =====
-- A page of the site feed: `ApplyPacketFeedPage`, `validatePacketSiteBaseline` and
-- `advancePacketSiteBaseline` of internal/service/packet_issuance_feed.go.
use chrono_desk.Text.Timestamp.{unix_milli}
use chrono_desk.Service.SiteFeed.Rows.{same_projection}
use chrono_desk.Store.Publish.{relay_packet_site_action}
use chrono_desk.Packet.ParseOperation.{is_int}
use chrono_desk.Store.Operations.{find_packet_operation, save_received_packet_operation}
use chrono_desk.Service.SiteFeed.Resolution.{
  apply_packet_resolution, packet_local_operation_outcome,
}
use chrono_desk.Packet.Model.{Registration}
use chrono_desk.Store.Site.{
  PacketSiteRegistrationRecord, advance_packet_site_cursor, delete_packet_site_registration,
  find_packet_site_feed_action, find_packet_site_registration, put_packet_site_registration,
  save_packet_site_feed_action,
}
use chrono_desk.Store.Tables.{OperationRow, PacketIssuanceScope, SiteFeedRow, Tables}
use chrono_desk.Packet.Operation.{Operation}
use chrono_desk.Packet.FeedChange.{FeedAction, FeedChange, FeedPage}
use chrono_desk.Service.Receive.Persist.{External, find_scope}
use chrono_desk.Service.SiteFeed.Plans.{Application, apply_packet_feed_changes}
use chrono_desk.Prelude.{[], Bool, List, Option, String, false, none, not, some, true, ℕ, ◌||◌, ◌∷◌}
use chrono_desk.Store.Db.{
  ◌>>=◌, ◌>>◌, Db, branch, message, or_raise, pure, query, raise_if, within_tx,
}
use chrono_desk.Prelude.Classes.{string_eq, nat_eq, list_eq, ◌==◌}

pub record PacketFeedApplication : Type 0 where
  pub action_id : String
  pub application : String
  pub code : Option String
  pub known : Bool

is_live : Option PacketSiteRegistrationRecord → Bool
is_live none = false
is_live (some r) = not r.deleted

-- The row of the site is not the one that the change was made on.
differs : Option PacketSiteRegistrationRecord → Option Registration → Bool
unfolding is_live same_projection
differs baseline none = is_live baseline
differs none (some before) = true
differs (some r) (some before) = r.deleted || not (same_projection r.value before)

unfoldable pub validate_changes : String → List FeedChange → Db Tables (Unit {0})
unfolding differs find_packet_site_registration
validate_changes event [] = pure tt
validate_changes event (c ∷ cs) = do
  baseline ← find_packet_site_registration event c.registration_id
  raise_if (differs baseline c.before) (message "packet_site_baseline_mismatch")
  validate_changes event cs

unfoldable pub validate_packet_site_baseline :
    String → List FeedChange → Bool → Db Tables (Unit {0})
unfolding validate_changes
validate_packet_site_baseline event changes resolution =
    branch resolution (pure tt) (validate_changes event changes)

previous_value : Option PacketSiteRegistrationRecord → Option Registration → Option Registration
previous_value none before = before
previous_value (some r) before = some r.value

advance_row : String → FeedChange → Option Registration → Db Tables (Unit {0})
unfolding previous_value find_packet_site_registration put_packet_site_registration
    delete_packet_site_registration
advance_row event c none = do
  baseline ← find_packet_site_registration event c.registration_id
  previous ← or_raise (previous_value baseline c.before) (message "packet_site_baseline_mismatch")
  delete_packet_site_registration event previous
advance_row event c (some after) = put_packet_site_registration event (some after)

unfoldable pub advance_packet_site_baseline : String → List FeedChange → Db Tables (Unit {0})
unfolding advance_row
advance_packet_site_baseline event [] = pure tt
advance_packet_site_baseline event (c ∷ cs) = do
  advance_row event c c.after
  advance_packet_site_baseline event cs

unfoldable pub is_resolution : Option Operation → Bool
is_resolution none = false
is_resolution (some operation) = is_int operation.schema_version 2

unfoldable pub is_trusted : String → Bool
is_trusted outcome = outcome == "applied" || outcome == "equivalent"

apply_ordinary : External → String → FeedAction → Db Tables Application
unfolding apply_packet_feed_changes
apply_ordinary env event action =
    branch (action.outcome == "conflict")
      (pure (record { application = "review"; code = action.code }))
      (branch (action.outcome == "applied") (apply_packet_feed_changes env event action)
        (pure (record { application = "observed"; code = action.code })))

unfoldable pub apply_by_outcome :
    External → String → FeedAction → ℕ → Option Operation → Db Tables Application
unfolding apply_ordinary apply_packet_resolution
apply_by_outcome env event action at none = apply_ordinary env event action
apply_by_outcome env event action at (some operation) =
    branch (is_int operation.schema_version 2)
      (apply_packet_resolution env event action operation at) (apply_ordinary env event action)

other_text : Operation → Option OperationRow → Bool
other_text operation none = false
other_text operation (some r) = not (r.operation_json == operation.canonical)

check_local : FeedAction → Option Operation → Db Tables (Unit {0})
unfolding find_packet_operation other_text
check_local action none = pure tt
check_local action (some operation) = do
  local ← find_packet_operation action.action_id
  raise_if (other_text operation local) (message "packet_feed_action_identity_conflict")

save_operation :
    External → String → FeedAction → Application → ℕ → Option Operation → Db Tables (Unit {0})
unfolding save_received_packet_operation packet_local_operation_outcome
save_operation env event action applied at none = pure tt
save_operation env event action applied at (some operation) =
    branch (is_int operation.schema_version 2) (pure tt) (
      save_received_packet_operation env.sha256 operation event
        (packet_local_operation_outcome applied.application action.outcome) applied.code
        action.outcome action.code at)

unfoldable pub apply_new_action : External → String → FeedAction → Db Tables PacketFeedApplication
unfolding check_local unix_milli is_trusted is_resolution validate_packet_site_baseline
    apply_by_outcome advance_packet_site_baseline save_operation save_packet_site_feed_action
    relay_packet_site_action
apply_new_action env event action = do
  check_local action action.operation
  at ← or_raise (unix_milli action.recorded_at) (message "invalid_feed_response")
  branch (is_trusted action.outcome)
      (validate_packet_site_baseline event action.changes (is_resolution action.operation))
      (pure tt)
  applied ← apply_by_outcome env event action at action.operation
  branch (is_trusted action.outcome) (advance_packet_site_baseline event action.changes) (pure tt)
  save_operation env event action applied at action.operation
  save_packet_site_feed_action (record {
    action_id = action.action_id;
    event_id = event;
    site_sequence = action.sequence;
    action_json = action.canonical;
    application = applied.application;
    application_code = applied.code;
    recorded_at = at;
  })
  relay_packet_site_action event action at
  pure (record {
    action_id = action.action_id;
    application = applied.application;
    code = applied.code;
    known = false;
  })

unfoldable pub other_action : String → FeedAction → SiteFeedRow → Bool
other_action event action r =
    not (r.event_id == event)
    || not (r.site_sequence == action.sequence)
    || not (r.action_json == action.canonical)

unfoldable pub apply_action :
    External → String → FeedAction → Option SiteFeedRow → Db Tables PacketFeedApplication
unfolding apply_new_action other_action
apply_action env event action none = apply_new_action env event action
apply_action env event action (some r) = do
  raise_if (other_action event action r) (message "packet_feed_action_identity_conflict")
  pure (record {
    action_id = action.action_id;
    application = r.application;
    code = r.application_code;
    known = true;
  })

unfoldable pub apply_actions :
    External → String → List FeedAction → Db Tables (List PacketFeedApplication)
unfolding find_packet_site_feed_action apply_action
apply_actions env event [] = pure []
apply_actions env event (a ∷ rest) = do
  known ← find_packet_site_feed_action a.action_id
  application ← apply_action env event a known
  applications ← apply_actions env event rest
  pure (application ∷ applications)

unfoldable pub page_differs : FeedPage → Option PacketIssuanceScope → Bool
page_differs page none = true
page_differs page (some scope) =
    scope.scope_id == ""
    || not (scope.scope_id == page.scope_id)
    || not (scope.site_feed_cursor == page.cursor.after)

unfoldable pub apply_page : External → String → FeedPage → Db Tables (List PacketFeedApplication)
unfolding find_scope page_differs apply_actions advance_packet_site_cursor
apply_page env event page = do
  scope ← query (λ s. find_scope event s.scopes)
  raise_if (page_differs page scope) (message "packet_feed_cursor_changed")
  applications ← apply_actions env event page.actions
  advance_packet_site_cursor event page.cursor.after page.cursor.next
  pure applications

unfoldable pub apply_packet_feed_page :
    External → String → FeedPage → Db Tables (List PacketFeedApplication)
unfolding apply_page
apply_packet_feed_page env event page = within_tx (apply_page env event page)
