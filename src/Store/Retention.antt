-- ===== src/Store/Retention.antt =====
-- `CompactPacketIssuanceFeed` of internal/service/packet_issuance_retention.go: the move of old actions of the feed
-- into its archive. `IsZero` of the time is the number 0.
pub mod Bounds
use chrono_desk.Prelude.{
  Bool, String, false, if◌then◌else◌, ltb, not, true, within, ℕ, ◌+◌, ◌-◌, ◌||◌,
}
use chrono_desk.Store.Feed.{PacketFeedBounds, archive_packet_feed_prefix, packet_feed_bounds}
use chrono_desk.Store.Tables.{Tables}
use chrono_desk.Store.Db.{◌>>=◌, ◌>>◌, Db, execute, message, pure, raise_if, within_tx}
use chrono_desk.Prelude.Classes.{string_eq, nat_eq, bool_eq, ◌==◌}

pub record PacketFeedRetentionResult : Type 0 where
  pub head : ℕ
  pub first_available : ℕ
  pub candidate : ℕ
  pub processed : ℕ
  pub through : ℕ
  pub executed : Bool

abbrev packet_feed_archive_batch_limit : ℕ
packet_feed_archive_batch_limit = 100

-- The result before the archiving, for a head that is `keep` beyond the last candidate.
unfoldable pub planned : PacketFeedBounds → ℕ → PacketFeedRetentionResult
planned bounds keep =
    let candidate = bounds.head - keep - bounds.first_available + 1 in
    let processed =
      if ltb packet_feed_archive_batch_limit candidate
      then packet_feed_archive_batch_limit
      else candidate in
    record {
      head = bounds.head;
      first_available = bounds.first_available;
      candidate = candidate;
      processed = processed;
      through = bounds.first_available + processed - 1;
      executed = false;
    }

unfoldable pub execute_plan :
    String → ℕ → PacketFeedRetentionResult → Db Tables PacketFeedRetentionResult
unfolding archive_packet_feed_prefix
execute_plan event now result = do
  archived ← archive_packet_feed_prefix event result.through now
  raise_if
      (not (archived.archived == result.processed)
        || not (archived.first_available == result.through + 1))
      (message "packet feed archive result mismatch")
  pure (record result { first_available = archived.first_available; executed = true })

-- `lastArchivable < bounds.FirstAvailable` for the integer `bounds.Head - keep`.
unfoldable pub compact_within :
    String → ℕ → Bool → ℕ → PacketFeedBounds → Db Tables PacketFeedRetentionResult
unfolding execute_plan planned
compact_within event keep execute now bounds =
    if ltb bounds.head (bounds.first_available + keep)
    then pure (record {
      head = bounds.head;
      first_available = bounds.first_available;
      candidate = 0;
      processed = 0;
      through = 0;
      executed = false;
    })
    else if not execute
    then pure (planned bounds keep)
    else execute_plan event now (planned bounds keep)

unfoldable pub compact_packet_issuance_feed :
    String → ℕ → Bool → ℕ → Db Tables PacketFeedRetentionResult
unfolding compact_within packet_feed_bounds
compact_packet_issuance_feed event keep execute now = do
  raise_if (event == "" || not (within 1 100000 keep) || now == 0)
      (message "invalid packet feed retention request")
  within_tx (packet_feed_bounds event >>= compact_within event keep execute now)
