-- ===== src/Store/Feed.antt =====
-- The feed of the desk to its tablets in internal/infrastructure/sqlite/packet_issuance_store.go: `PacketFeedHead`,
-- `PacketFeedBounds`, `ArchivePacketFeedPrefix`, `ListPacketFeedRows`, `RelayPacketSiteAction`,
-- `PublishPacketOperation` and `PublishPacketServerChange`.
pub mod Numbers
pub mod Floor
pub mod Archive
pub mod Kept
pub mod Preserved
use chrono_desk.Store.Db.{
  ◌>>=◌, ◌>>◌, Db, constraint, execute, message, or_raise, pure, query, raise_if,
}
use chrono_desk.Store.Tables.{ArchivedRow, FeedHead, FeedRow, Tables}
use chrono_desk.Prelude.{
  Bool, List, Option, String, [], any, if◌then◌else◌, leb, length, ltb, none, not, some, suc,
  within, zero, ℕ, ◌&&◌, ◌++◌, ◌+◌, ◌-◌, ◌||◌, ◌∷◌,
}
use chrono_desk.Prelude.Classes.{string_eq, nat_eq, option_eq, ◌==◌}

pub record PacketFeedBounds : Type 0 where
  pub head : ℕ
  pub first_available : ℕ

pub record PacketFeedArchiveResult : Type 0 where
  pub archived : ℕ
  pub first_available : ℕ

-- The row of packet_issuance_feed_heads of an event.
unfoldable pub find_head : String → List FeedHead → Option FeedHead
find_head event [] = none
find_head event (h ∷ hs) = if h.event_id == event then some h else find_head event hs

unfoldable pub head_of : Option FeedHead → ℕ
head_of none = 0
head_of (some h) = h.last_sequence

unfoldable pub packet_feed_head : String → Db Tables ℕ
unfolding find_head head_of
packet_feed_head event = query λ s. head_of (find_head event s.feed_heads)

unfoldable pub bounds_of : Option FeedHead → Db Tables PacketFeedBounds
bounds_of none = pure (record { head = 0; first_available = 1 })
bounds_of (some h) = do
  raise_if
      (ltb h.first_available_sequence 1 || ltb (h.last_sequence + 1) h.first_available_sequence)
      (message "invalid packet feed bounds")
  pure (record { head = h.last_sequence; first_available = h.first_available_sequence })

unfoldable pub packet_feed_bounds : String → Db Tables PacketFeedBounds
unfolding find_head bounds_of
packet_feed_bounds event = do found ← query (λ s. find_head event s.feed_heads); bounds_of found

-- `WHERE event_id=? AND event_sequence BETWEEN ? AND ?`
unfoldable pub in_range : String → ℕ → ℕ → FeedRow → Bool
in_range event lo hi row = row.event_id == event && within lo hi row.sequence

unfoldable pub keep_rows : (FeedRow → Bool) → List FeedRow → List FeedRow
keep_rows p [] = []
keep_rows p (r ∷ rs) = if p r then r ∷ keep_rows p rs else keep_rows p rs

-- `ORDER BY event_sequence`
unfoldable pub insert_row : FeedRow → List FeedRow → List FeedRow
insert_row r [] = r ∷ []
insert_row r (x ∷ xs) = if leb r.sequence x.sequence then r ∷ x ∷ xs else x ∷ insert_row r xs

unfoldable pub order_rows : List FeedRow → List FeedRow
unfolding insert_row
order_rows [] = []
order_rows (r ∷ rs) = insert_row r (order_rows rs)

-- `INSERT INTO packet_issuance_feed_archives`, with its primary key and its unique numbers.
same_archive : FeedRow → ArchivedRow → Bool
same_archive r a =
    a.row.action_id == r.action_id || (a.row.event_id == r.event_id && a.row.sequence == r.sequence)

unfoldable pub insert_archive : FeedRow → ℕ → Db Tables (Unit {0})
unfolding same_archive
insert_archive r at = do
  taken ← query (λ s. any (same_archive r) s.feed_archives)
  raise_if taken constraint
  execute λ s. record s {
    feed_archives = s.feed_archives ++ (record { row = r; archived_at = at } ∷ []);
  }

-- The loop over the batch, from the number that its first row must have.
unfoldable pub archive_batch : String → ℕ → ℕ → List FeedRow → Db Tables (Unit {0})
unfolding insert_archive
archive_batch event at expected [] = pure tt
archive_batch event at expected (r ∷ rs) = do
  raise_if (not (r.sequence == expected)) (message "packet feed archive gap")
  insert_archive (record r { event_id = event }) at
  archive_batch event at (expected + 1) rs

unfoldable pub set_first : String → ℕ → List FeedHead → List FeedHead
set_first event value [] = []
set_first event value (h ∷ hs) =
    if h.event_id == event
    then record h { first_available_sequence = value } ∷ hs
    else h ∷ set_first event value hs

-- `UPDATE packet_issuance_feed_heads SET first_available_sequence=? WHERE ...`, which must change a row.
unfoldable pub advance_first : String → PacketFeedBounds → ℕ → Db Tables (Unit {0})
unfolding find_head set_first
advance_first event bounds value = do
  found ← query (λ s. find_head event s.feed_heads)
  h ← or_raise found (message "packet feed bounds changed")
  raise_if
      (not (h.first_available_sequence == bounds.first_available && h.last_sequence == bounds.head))
      (message "packet feed bounds changed")
  execute λ s. record s { feed_heads = set_first event value s.feed_heads }

-- `ArchivePacketFeedPrefix` after it has read the bounds.
unfoldable pub archive_range : String → ℕ → ℕ → PacketFeedBounds → Db Tables PacketFeedArchiveResult
unfolding in_range keep_rows order_rows archive_batch advance_first
archive_range event through archived_at bounds = do
  raise_if
      (ltb through bounds.first_available
        || ltb bounds.head through
        || ltb 100 (through - bounds.first_available + 1)
        || archived_at == 0)
      (message "invalid packet feed archive range")
  batch ←
      query
        λ s. order_rows (keep_rows (in_range event bounds.first_available through) s.feed_actions)
  raise_if (not (length batch == through - bounds.first_available + 1))
      (message "packet feed archive gap")
  archive_batch event archived_at bounds.first_available batch
  execute λ s. record s {
    feed_actions =
        keep_rows (λ r. not (in_range event bounds.first_available through r)) s.feed_actions;
  }
  advance_first event bounds (through + 1)
  pure (record { archived = length batch; first_available = through + 1 })

unfoldable pub archive_packet_feed_prefix : String → ℕ → ℕ → Db Tables PacketFeedArchiveResult
unfolding packet_feed_bounds archive_range
archive_packet_feed_prefix event through archived_at = do
  bounds ← packet_feed_bounds event
  archive_range event through archived_at bounds

unfoldable pub take_rows : ℕ → List FeedRow → List FeedRow
take_rows zero rs = []
take_rows (suc n) [] = []
take_rows (suc n) (r ∷ rs) = r ∷ take_rows n rs

-- The rows without the operations that the query joins to them.
unfoldable pub list_packet_feed_rows : String → ℕ → ℕ → Db Tables (List FeedRow)
unfolding keep_rows order_rows take_rows
list_packet_feed_rows event after limit = do
  raise_if (not (within 1 100 limit)) (message "invalid packet feed query")
  query λ s.
      take_rows limit
        (order_rows (keep_rows (λ r. r.event_id == event && ltb after r.sequence) s.feed_actions))
