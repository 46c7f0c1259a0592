-- ===== src/Store/Tests.antt =====
-- The feed of the desk at concrete tables, and the theorems of Store applied to them.
use chrono_desk.Store.Retention.{PacketFeedRetentionResult, compact_packet_issuance_feed}
use chrono_desk.Store.Retention.Bounds.{IsCompacted, compact_packet_issuance_feed-IsCompacted}
use chrono_desk.Store.Feed.Preserved.{recorded, recorded-archive_packet_feed_prefix}
use chrono_desk.Store.Journal.Once.{publish_packet_operation-once}
use chrono_desk.Store.Publish.{is_withheld, publish_packet_operation}
use chrono_desk.Prelude.{List, [], false, none, refl, ◌++◌, ◌-◌, ◌∷◌, ◌≡◌, Bool, arith, some, true}
use chrono_desk.Store.Journal.Pages.{at_most, list_packet_feed_rows-Journaled, sequences}
use chrono_desk.Store.Journal.{
  Call, Journaled, Journaled-IsContiguous, archive, called, no_rows_for, publish_change,
  publish_operation, run_call, start, Later, same, then_called, relay,
}
use chrono_desk.Store.Feed.Numbers.{IsContiguous, archived_rows, last_of, numbers, range, first_of}
use chrono_desk.Store.Feed.{list_packet_feed_rows, archive_packet_feed_prefix}
use chrono_desk.Store.Tables.{EventRow, FeedRow, Tables}
use chrono_desk.Store.Db.{Run, failed, done, state_of, within_tx, or_raise, raise_if, resume}
use chrono_desk.Packet.FeedChange.{FeedAction}
use chrono_desk.Packet.Rows.{change}
use chrono_desk.Prelude.Classes.{string_eq, nat_eq, ◌==◌}
use chrono_desk.Packet.ParseOperation.{operation_of}
use chrono_desk.Samples.{uploaded, owned_row, numbered_row}

abbrev event_row : EventRow
event_row = record { id = "e-1"; use_race_date_for_age = false }

abbrev empty_desk : Tables
empty_desk = no_rows_for (event_row ∷ [])

abbrev first_call : Call
first_call = publish_operation uploaded "applied" none (change owned_row numbered_row ∷ []) 1000

abbrev second_call : Call
second_call =
    publish_change "e-1" "33333333-3333-4333-8333-333333333333" "desk.edit"
      (change numbered_row owned_row ∷ []) 2000

abbrev third_call : Call
third_call = archive "e-1" 1 3000

abbrev after_call : Call → Tables → Tables
after_call c s = state_of (within_tx (run_call c) s)

abbrev two_actions : Tables
two_actions = after_call second_call (after_call first_call empty_desk)

two_actions_numbers : numbers "e-1" two_actions.feed_actions ≡ 1 ∷ 2 ∷ []
unfolding numbers within_tx run_call resume raise_if or_raise operation_of
two_actions_numbers = refl

abbrev archived_one : Tables
archived_one = after_call third_call two_actions

archived_one_numbers :
    numbers "e-1" archived_one.feed_actions
      ++ numbers "e-1" (archived_rows archived_one.feed_archives)
    ≡ 2 ∷ 1 ∷ []
unfolding numbers archived_rows within_tx run_call resume raise_if or_raise operation_of
archived_one_numbers = refl

two_actions-Journaled : Journaled two_actions
two_actions-Journaled =
    called (after_call first_call empty_desk)
      (called empty_desk (start (event_row ∷ [])) first_call) second_call

Journaled-IsContiguous_example : IsContiguous "e-1" archived_one
Journaled-IsContiguous_example =
    Journaled-IsContiguous archived_one (called two_actions two_actions-Journaled third_call) "e-1"

two_actions_first : first_of "e-1" two_actions.feed_heads ≡ 1
unfolding first_of within_tx run_call resume raise_if or_raise operation_of
two_actions_first = refl

list_packet_feed_rows-Journaled_example :
    (page_rows : List FeedRow) × (list_packet_feed_rows "e-1" 1 10 two_actions
      ≡ done page_rows two_actions)
    × (sequences page_rows ≡ range 2 (at_most 10 (last_of "e-1" two_actions.feed_heads - 1)))
list_packet_feed_rows-Journaled_example =
    list_packet_feed_rows-Journaled two_actions "e-1" 1 10 two_actions-Journaled
      (omega (arith, two_actions_first)) refl

archive_runs :
    archive_packet_feed_prefix "e-1" 1 3000 two_actions
    ≡ done (record { archived = 1; first_available = 2 }) archived_one
unfolding archive_packet_feed_prefix within_tx run_call resume raise_if or_raise operation_of
archive_runs = refl

abbrev from_tablet : FeedRow → Bool
from_tablet r = r.kind == "operation"

recorded-archive_packet_feed_prefix_example :
    recorded from_tablet archived_one ≡ recorded from_tablet two_actions
recorded-archive_packet_feed_prefix_example =
    recorded-archive_packet_feed_prefix from_tablet "e-1" 1 3000 two_actions archive_runs

publish_runs :
    publish_packet_operation uploaded "applied" none
      (change owned_row numbered_row ∷ [])
      1000
      empty_desk
    ≡ done tt (after_call first_call empty_desk)
unfolding publish_packet_operation within_tx run_call resume raise_if or_raise operation_of
publish_runs = refl

archived-Later : Later (after_call first_call empty_desk) archived_one
archived-Later =
    then_called (after_call first_call empty_desk) two_actions
      (then_called (after_call first_call empty_desk) (after_call first_call empty_desk)
        (same (after_call first_call empty_desk)) second_call)
      third_call

not_withheld : is_withheld uploaded.command.type "applied" ≡ false
unfolding is_withheld operation_of
not_withheld = refl

publish_packet_operation-once_example :
    publish_packet_operation uploaded "conflict" none [] 4000 archived_one ≡ done tt archived_one
publish_packet_operation-once_example =
    publish_packet_operation-once uploaded "applied" none (change owned_row numbered_row ∷ []) 1000
      empty_desk (after_call first_call empty_desk) archived_one not_withheld publish_runs
      archived-Later "conflict" none [] 4000

-- The operation comes back from the site after it has been archived.
abbrev echoed : FeedAction
echoed = record {
  action_id = uploaded.operation_id;
  kind = "operation";
  sequence = "1";
  recorded_at = "2026-01-01T00:00:00.000Z";
  source_code = "pwa.packet_issuance";
  outcome = "applied";
  code = none;
  operation = some uploaded;
  changes = [];
  canonical = [];
}

abbrev relayed_again : Tables
relayed_again = after_call (relay "e-1" echoed 5000) archived_one

abbrev is_uploaded : FeedRow → Bool
is_uploaded r = r.action_id == uploaded.operation_id

relayed_again_twice : recorded is_uploaded relayed_again ≡ 2
unfolding recorded within_tx run_call resume raise_if or_raise operation_of
relayed_again_twice = refl

abbrev is_failed : {A : Type 0} → Run Tables A → Bool
is_failed (failed e s) = true
is_failed (done a s) = false

relayed_again_stuck : is_failed (archive_packet_feed_prefix "e-1" 3 6000 relayed_again) ≡ true
unfolding archive_packet_feed_prefix within_tx run_call resume raise_if or_raise operation_of
relayed_again_stuck = refl

abbrev compacted : Tables
compacted = state_of (compact_packet_issuance_feed "e-1" 1 true 3000 two_actions)

abbrev compaction : PacketFeedRetentionResult
compaction = record {
  head = 2;
  first_available = 2;
  candidate = 1;
  processed = 1;
  through = 1;
  executed = true;
}

compaction_runs :
    compact_packet_issuance_feed "e-1" 1 true 3000 two_actions ≡ done compaction compacted
unfolding compact_packet_issuance_feed within_tx run_call resume raise_if or_raise operation_of
compaction_runs = refl

compact_packet_issuance_feed-IsCompacted_example : IsCompacted "e-1" 1 1 two_actions compacted
compact_packet_issuance_feed-IsCompacted_example =
    compact_packet_issuance_feed-IsCompacted "e-1" 1 true 3000 two_actions compacted compaction
      two_actions-Journaled compaction_runs refl
