-- ===== src/Service/ReceiveTests.antt =====
-- The receiver at concrete tables, and the theorems of Service/Receive applied to them.
use chrono_desk.Text.Chars.{source_code_pattern}
use chrono_desk.Service.Receive.Replay.{receive_one-again}
use chrono_desk.Service.Receive.Afterwards.{ReceivedLater, then_fed, then_received, unchanged}
use chrono_desk.Store.Journal.{Call, publish_change, run_call}
use chrono_desk.Packet.ParseOperation.{operation_of}
use chrono_desk.Store.Publish.{operation_event}
use chrono_desk.Service.Receive.CutOff.{IsCutOff, receive-IsCutOff}
use chrono_desk.Prelude.{[], false, none, refl, some, ◌∷◌, ◌≡◌, List, true, length, ◌+◌}
use chrono_desk.Service.Receive.Batch.{receive, receive_one}
use chrono_desk.Service.Receive.Persist.{External, PacketConnectionContext, persist}
use chrono_desk.Store.Tables.{MemberRow, Tables}
use chrono_desk.Store.Db.{
  done, failed, message, state_of, branch, or_raise, raise_if, resume, within_tx,
}
use chrono_desk.Store.Operations.{Receipt}
use chrono_desk.Store.Journal.{no_rows_for}
use chrono_desk.Text.Decimal.{pos}
use chrono_desk.Prelude.Classes.{string_eq, nat_eq}
use chrono_desk.Samples.{uploaded}
use chrono_desk.Packet.Operation.{Operation}

abbrev pub packages : External
packages = record {
  sha256 = λ text. "00";
  decode = λ text. none;
  age_on = λ birth race by_race. pos 30;
  now = 1000;
}

abbrev connected : PacketConnectionContext
connected = record {
  event_id = "e-1";
  scope_id = "site:1:e-1";
  origin_instance_id = "22222222-2222-4222-8222-222222222222";
}

-- Another member has the number 12.
abbrev other_member : MemberRow
other_member = record {
  id = "r-9";
  event_id = "e-1";
  race_id = "10k";
  category_id = none;
  number = some (pos 12);
  epc = none;
  rfid = none;
  first_name = "Bo";
  last_name = "Li";
  gender = none;
  dob = none;
  team = none;
  city = none;
  status = 0;
  start_time_ms = none;
  start_time_source = "unknown";
  start_observation_id = none;
  finish_time_ms = none;
  clean_time = none;
}

abbrev pub desk : Tables
desk = record (no_rows_for (record { id = "e-1"; use_race_date_for_age = false } ∷ [])) {
  scopes =
      record {
        event_id = "e-1";
        scope_id = "site:1:e-1";
        baseline_id = "b-1";
        source_kind = "site";
        installed_at = 1;
        site_feed_cursor = "0";
      }
      ∷ [];
  members = other_member ∷ [];
}

abbrev first_receipt : Receipt
first_receipt = record {
  operation_id = uploaded.operation_id;
  content_hash = "sha256:00";
  outcome = "conflict";
  known = false;
  code = some "number_occupied";
}

abbrev after_first : Tables
after_first = state_of (receive_one packages connected uploaded desk)

receive_one_runs : receive_one packages connected uploaded desk ≡ done first_receipt after_first
unfolding receive_one within_tx resume raise_if branch persist or_raise source_code_pattern
receive_one_runs = refl

uploaded_event : operation_event uploaded.changes ≡ "e-1"
unfolding operation_event operation_of
uploaded_event = refl

-- Another operation and a change of the desk's own come in between.
abbrev second_upload : Operation
second_upload = record uploaded { operation_id = "op-2"; origin_sequence = 7 }

abbrev own_change : Call
own_change =
    publish_change "e-1" "8a7c1a52-1c4e-4c9e-9a53-5b8f5dbe0c11" "admin" uploaded.changes 1500

abbrev after_second : Tables
after_second =
    state_of (receive_one (record packages { now = 1200 }) connected second_upload after_first)

abbrev in_between : Tables
in_between = state_of (within_tx (run_call own_change) after_second)

in_between_rows :
    (length in_between.operations ≡ length after_first.operations + 1)
    × (length in_between.feed_actions ≡ length after_first.feed_actions + 2)
unfolding receive_one within_tx resume raise_if branch persist or_raise source_code_pattern run_call
    operation_of
in_between_rows = (refl, refl)

in_between-ReceivedLater : ReceivedLater after_first in_between
in_between-ReceivedLater =
    then_fed after_first after_second
      (then_received after_first after_first (unchanged after_first)
        (record packages { now = 1200 }) connected second_upload)
      own_change

receive_one-again_example :
    receive_one (record packages { now = 2000 }) connected uploaded in_between
    ≡ done (record first_receipt { known = true }) in_between
receive_one-again_example =
    receive_one-again packages connected uploaded desk after_first in_between first_receipt 2000
      uploaded_event refl receive_one_runs in_between-ReceivedLater

-- The second operation is of another scope.
abbrev upload_batch : List Operation
upload_batch = uploaded ∷ record uploaded { scope_id = "site:2:e-1" } ∷ []

receive_runs :
    receive packages connected upload_batch desk
    ≡ failed (message "operation_scope_conflict") after_first
unfolding receive receive_one within_tx resume raise_if branch persist or_raise source_code_pattern
    operation_of
receive_runs = refl

receive-IsCutOff_example :
    IsCutOff packages connected upload_batch desk (message "operation_scope_conflict") after_first
receive-IsCutOff_example =
    receive-IsCutOff packages connected upload_batch desk after_first
      (message "operation_scope_conflict") refl receive_runs

-- An operation on rows of another event is rejected, and is a conflict when it comes again.
abbrev elsewhere : PacketConnectionContext
elsewhere = record connected { event_id = "e-2" }

abbrev other_desk : Tables
other_desk = record desk {
  scopes =
      record {
        event_id = "e-2";
        scope_id = "site:1:e-1";
        baseline_id = "b-2";
        source_kind = "site";
        installed_at = 1;
        site_feed_cursor = "0";
      }
      ∷ [];
}

abbrev after_rejection : Tables
after_rejection = state_of (receive_one packages elsewhere uploaded other_desk)

rejected_first :
    receive_one packages elsewhere uploaded other_desk
    ≡ done
        (record first_receipt { outcome = "rejected"; code = some "event_mismatch" })
        after_rejection
unfolding receive_one within_tx resume raise_if branch persist or_raise source_code_pattern
    operation_of
rejected_first = refl

conflict_then :
    receive_one packages elsewhere uploaded after_rejection
    ≡ failed (message "operation_identity_conflict") after_rejection
unfolding receive_one within_tx resume raise_if branch persist or_raise source_code_pattern
    operation_of
conflict_then = refl
