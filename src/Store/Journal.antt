-- ===== src/Store/Journal.antt =====
-- The feed of the desk as sequences of transactions, each of which publishes, relays or archives actions
-- (internal/infrastructure/sqlite/packet_issuance_store.go, internal/infrastructure/sqlite/store.go).
use chrono_desk.Prelude.{List, Option, String, [], refl, subst, sym, ℕ, ◌≡◌}
use chrono_desk.Store.Publish.Contiguous.{
  publish_packet_operation-IsContiguous, publish_packet_server_change-IsContiguous,
  relay_packet_site_action-IsContiguous,
}
use chrono_desk.Store.Publish.{
  publish_packet_operation, publish_packet_server_change, relay_packet_site_action,
}
use chrono_desk.Store.Feed.Kept.{archive_packet_feed_prefix-IsContiguous}
use chrono_desk.Store.Feed.Numbers.{
  IsContiguous, IsNumbered, archived_rows, first_of, first_or_one, last_of, numbers, range,
}
use chrono_desk.Store.Feed.{archive_packet_feed_prefix, find_head, head_of}
use chrono_desk.Store.Tables.{Tables, EventRow}
pub mod Pages
pub mod Once
use chrono_desk.Store.Db.{
  ◌>>=◌, ◌>>◌, Db, Run, after_done, commit, done, failed, pure, resume-eq-done, state_of, within_tx,
}
use chrono_desk.Packet.FeedChange.{FeedAction}
use chrono_desk.Packet.Operation.{Operation}
use chrono_desk.Packet.Model.{Change}

pub data Call : Type 0 where
  relay : String → FeedAction → ℕ → Call
  publish_operation : Operation → String → Option String → List Change → ℕ → Call
  publish_change : String → String → String → List Change → ℕ → Call
  archive : String → ℕ → ℕ → Call

unfoldable pub run_call : Call → Db Tables (Unit {0})
unfolding relay_packet_site_action publish_packet_operation publish_packet_server_change
    archive_packet_feed_prefix
run_call (relay event action at) = relay_packet_site_action event action at
run_call (publish_operation operation outcome code changes at) =
    publish_packet_operation operation outcome code changes at
run_call (publish_change event id source_code changes at) =
    publish_packet_server_change event id source_code changes at
run_call (archive event through at) = do
  result ← archive_packet_feed_prefix event through at
  pure tt

-- Tables without a row, for these events.
abbrev pub no_rows_for : List EventRow → Tables
no_rows_for events = record {
  scopes = [];
  operations = [];
  registrations = [];
  site_registrations = [];
  feed_heads = [];
  feed_actions = [];
  feed_archives = [];
  site_feed_actions = [];
  resolutions = [];
  rebases = [];
  members = [];
  results = [];
  rfid_logs = [];
  events = events;
  races = [];
  race_categories = [];
  clubs = [];
}

-- The tables after some transactions, committed or not.
pub data Journaled : Tables → Type 0 where
  start : (events : List EventRow) → Journaled (no_rows_for events)
  called : (s : Tables) → Journaled s → (c : Call) → Journaled (state_of (within_tx (run_call c) s))

-- The tables after some further transactions.
pub data Later : Tables → Tables → Type 0 where
  same : (s : Tables) → Later s s
  then_called :
      (s t : Tables) → Later s t → (c : Call) → Later s (state_of (within_tx (run_call c) t))

run_call-IsContiguous :
    (e : String) (c : Call) (s : Tables) {t : Tables}
    → run_call c s ≡ done tt t
    → IsContiguous e s
    → IsContiguous e t
unfolding run_call
run_call-IsContiguous e (relay event action at) s h c =
    relay_packet_site_action-IsContiguous e event action at s h c
run_call-IsContiguous e (publish_operation operation outcome code changes at) s h c =
    publish_packet_operation-IsContiguous e operation outcome code changes at s h c
run_call-IsContiguous e (publish_change event id source_code changes at) s h c =
    publish_packet_server_change-IsContiguous e event id source_code changes at s h c
run_call-IsContiguous e (archive event through at) s {t} h c =
    let (r, s1, e1, h1) = resume-eq-done _ _ h in
    subst (IsContiguous e) (sym (after_done h1))
      (archive_packet_feed_prefix-IsContiguous e event through at s e1 c)

-- What holds of the tables before and after a run holds after its commit or rollback.
pub state_of-commit :
    (P : Tables → Type 0) (s : Tables) (r : Run Tables (Unit {0}))
    → ((t : Tables) → r ≡ done tt t → P t)
    → P s
    → P (state_of (commit s r))
state_of-commit P s (failed x t) f c = c
state_of-commit P s (done tt t) f c = f t refl

-- After any transactions that publish, relay and archive actions, each committed or rolled back, and for
-- each event, there are numbers `k` and `n` such that the live actions carry the numbers from `k + 1` to
-- `k + n`, which are the first available and the last one of the head, and the archived ones those from 1
-- to `k`, all in order and without a gap.
pub Journaled-IsContiguous : (s : Tables) → Journaled s → (e : String) → IsContiguous e s
unfolding IsContiguous IsNumbered numbers archived_rows range first_of last_of first_or_one head_of
    find_head within_tx
Journaled-IsContiguous s (start events) e = (0, 0, refl, refl, refl, refl)
Journaled-IsContiguous s (called before r c) e =
    let contiguous = Journaled-IsContiguous before r e in
    state_of-commit (IsContiguous e) before (run_call c before)
      (λ t h. run_call-IsContiguous e c before h contiguous) contiguous
