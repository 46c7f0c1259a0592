-- ===== src/Packet/ParseFeed.antt =====
-- The feed of the site in internal/packetissuance/validation.go: `ParseFeedPage` and `parseFeedAction`,
-- on the value that `decodeValue` returns; `none` stands for its error. The operation of an action is
-- the value whose canonical text the code decodes again.
pub mod Contiguous
use chrono_desk.Service.Receive.Numbers.{after_number}
use chrono_desk.Packet.FeedChange.{
  FeedChange, FeedAction, FeedCursor, FeedPage, feed_cursor, parse_feed_changes, feed_event_id,
  valid_timestamp,
}
use chrono_desk.Packet.Canonical.{write_canonical}
use chrono_desk.Packet.Validate.{is_virtual_registration}
use chrono_desk.Packet.ParseOperation.{is_int, parse_operation_json, recode}
use chrono_desk.Packet.Operation.{Operation}
use chrono_desk.Text.Chars.{source_code_pattern, uuid_pattern}
use chrono_desk.Prelude.{
  Bool, List, Option, String, [], any, false, if◌then◌else◌, is_some, leb, length, ltb, none, not,
  some, true, ℕ, ◌&&◌, ◌+◌, ◌||◌, ◌∷◌,
}
use Prim.Native.Char.{code}
use chrono_desk.Prelude.Classes.{string_eq, nat_eq, option_eq, bool_eq, ◌==◌}
use chrono_desk.Packet.Json.{
  get, Fields, Value, as_array, as_bool, as_object, as_string, exact_keys, integer, is_null,
  item_count, items_list, string_value,
}
use chrono_desk.Packet.Model.{
  registration_eq, ok, Change, Registration, Result, fail_if, invalid, invalid_feed_response,
  or_fail, ◌>>=◌, ◌>>◌,
}

matches_before : Registration → Option Registration → Bool
matches_before expected none = false
matches_before expected (some actual) = record expected { has_timing_evidence = false } == actual

-- A virtual row after the operation is absent from the feed.
matches_after : Registration → Option Registration → Bool
matches_after expected none = is_virtual_registration expected
matches_after expected (some actual) =
    not (is_virtual_registration expected)
    && record expected { has_timing_evidence = false } == actual

unfoldable pub resolution_feed_changes_match : List Change → List FeedChange → Bool
unfolding matches_before matches_after
resolution_feed_changes_match [] [] = true
resolution_feed_changes_match (c ∷ cs) (f ∷ fs) =
    f.registration_id == c.registration_id
    && matches_before c.before f.before
    && matches_after c.after f.after
    && resolution_feed_changes_match cs fs
resolution_feed_changes_match _ _ = false

parse_code : Value → Result (Option String)
unfolding source_code_pattern
parse_code value = if is_null value then ok none else (do
  code ← or_fail (as_string value) invalid
  fail_if (not (source_code_pattern code)) invalid
  ok (some code))

abbrev has_changes : List FeedChange → Bool
has_changes [] = false
has_changes (_ ∷ _) = true

-- The part of `parseFeedAction` on the action's operation.
parse_action_operation :
    String → String → String → List FeedChange → Value → Result (Option Operation)
unfolding parse_operation_json resolution_feed_changes_match is_int
parse_action_operation action_id scope_id outcome changes raw = do
  operation ← recode invalid (parse_operation_json (some raw) true)
  fail_if
      (not (operation.operation_id == action_id)
        || not (operation.scope_id == scope_id)
        || not ((outcome == "applied") == has_changes changes))
      invalid
  fail_if
      (is_int operation.schema_version 2
        && (outcome == "equivalent"
            || (outcome == "applied"
                && not (resolution_feed_changes_match operation.changes changes))))
      invalid
  ok (some operation)

-- The switch on the action's kind.
unfoldable pub parse_kind :
    String → String → String → String → List FeedChange → Value → Result (Option Operation)
unfolding parse_action_operation
parse_kind kind action_id scope_id outcome changes raw =
    if kind == "operation"
    then parse_action_operation action_id scope_id outcome changes raw
    else (do
      fail_if
          (not (kind == "server_change")
            || not (is_null raw)
            || not (outcome == "applied")
            || not (has_changes changes))
          invalid
      ok none)

unfoldable pub parse_feed_action : String → String → ℕ → Value → Result FeedAction
unfolding parse_code parse_feed_changes parse_kind write_canonical feed_cursor valid_timestamp
    uuid_pattern
parse_feed_action scope_id event_id expected value = do
  obj ← or_fail (as_object value) invalid
  fail_if
      (not (
        exact_keys obj (
          "actionId" ∷ "kind" ∷ "sequence" ∷ "recordedAt" ∷ "sourceCode" ∷ "outcome" ∷ "code"
          ∷ "operation" ∷ "changes" ∷ [])))
      invalid
  (sequence, sequence_number) ← or_fail (feed_cursor (get "sequence" obj)) invalid
  let action_id = string_value (get "actionId" obj)
  let kind = string_value (get "kind" obj)
  let recorded_at = string_value (get "recordedAt" obj)
  let source_code = string_value (get "sourceCode" obj)
  let outcome = string_value (get "outcome" obj)
  fail_if
      (not (uuid_pattern action_id)
        || not (sequence_number == expected)
        || not (valid_timestamp recorded_at)
        || not (source_code_pattern source_code))
      invalid
  code ← parse_code (get "code" obj)
  fail_if
      (not ((outcome == "conflict") == is_some code)
        || (not (outcome == "applied")
            && not (outcome == "equivalent")
            && not (outcome == "conflict")))
      invalid
  raw ← or_fail (as_array (get "changes" obj)) invalid
  fail_if (not (leb (item_count raw) 20000)) invalid
  changes ← parse_feed_changes event_id [] (items_list raw)
  operation ← parse_kind kind action_id scope_id outcome changes (get "operation" obj)
  canonical ← or_fail (write_canonical value) invalid
  ok (record {
    action_id = action_id;
    kind = kind;
    sequence = sequence;
    recorded_at = recorded_at;
    source_code = source_code;
    outcome = outcome;
    code = code;
    operation = operation;
    changes = changes;
    canonical = canonical;
  })

-- The loop over the actions, from the sequence number before the first.
unfoldable pub parse_feed_actions :
    String → String → ℕ → List String → List Value → Result (List FeedAction)
parse_feed_actions scope_id event_id last seen [] = ok []
parse_feed_actions scope_id event_id last seen (raw ∷ rest) = do
  action ← recode invalid_feed_response (parse_feed_action scope_id event_id (last + 1) raw)
  fail_if (any (λ id. id == action.action_id) seen) invalid_feed_response
  actions ← parse_feed_actions scope_id event_id (last + 1) (action.action_id ∷ seen) rest
  ok (action ∷ actions)

-- Behind the cursor's checks. `expectedSequence` ends at `after + len(actions)`.
unfoldable pub parse_page_actions : String → FeedCursor → ℕ → ℕ → Fields → Result FeedPage
unfolding parse_feed_actions feed_event_id
parse_page_actions scope_id cursor after next obj = do
  let event_id = feed_event_id scope_id
  raw ← or_fail (as_array (get "actions" obj)) invalid_feed_response
  fail_if (event_id == "" || not (leb (item_count raw) 100)) invalid_feed_response
  actions ← parse_feed_actions scope_id event_id after [] (items_list raw)
  fail_if
      (not (after + length actions == next)
        || (length actions == 0 && not (cursor.next == cursor.after)))
      invalid_feed_response
  ok (record { scope_id = scope_id; cursor = cursor; actions = actions })

unfoldable pub parse_feed_page : Option Value → String → String → Result FeedPage
unfolding parse_page_actions feed_cursor is_int integer exact_keys get string_value
parse_feed_page decoded scope_id expected_after = do
  root ← or_fail decoded invalid_feed_response
  obj ← or_fail (as_object root) invalid_feed_response
  fail_if
      (not (exact_keys obj ("schemaVersion" ∷ "scopeId" ∷ "cursor" ∷ "actions" ∷ []))
        || not (is_int (integer (get "schemaVersion" obj)) 1)
        || not (string_value (get "scopeId" obj) == scope_id))
      invalid_feed_response
  cursor ← or_fail (as_object (get "cursor" obj)) invalid_feed_response
  fail_if (not (exact_keys cursor ("after" ∷ "next" ∷ "head" ∷ "hasMore" ∷ [])))
      invalid_feed_response
  (after, after_number) ← or_fail (feed_cursor (get "after" cursor)) invalid_feed_response
  (next, next_number) ← or_fail (feed_cursor (get "next" cursor)) invalid_feed_response
  (head, head_number) ← or_fail (feed_cursor (get "head" cursor)) invalid_feed_response
  has_more ← or_fail (as_bool (get "hasMore" cursor)) invalid_feed_response
  fail_if
      (not (after == expected_after)
        || not (leb after_number next_number)
        || not (leb next_number head_number)
        || not (has_more == ltb next_number head_number))
      invalid_feed_response
  parse_page_actions scope_id
      (record { after = after; next = next; head = head; has_more = has_more }) after_number
      next_number obj
