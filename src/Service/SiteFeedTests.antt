-- ===== src/Service/SiteFeedTests.antt =====
-- The application of the site feed at concrete tables, and the theorems of Service/SiteFeed applied to them.
use chrono_desk.Text.Timestamp.{unix_milli}
use chrono_desk.Samples.{numbered_row, owned_row, reserve_row}
use chrono_desk.Service.SiteFeed.Unchanged.{merge_packet_feed_change-unchanged}
use chrono_desk.Packet.Validate.{
  known_status, valid_optional_identifier, validate_optional_person, validate_registration,
}
use chrono_desk.Text.Chars.{identifier_pattern}
use chrono_desk.Service.SiteFeed.Once.{apply_packet_feed_page-once}
use chrono_desk.Service.SiteFeed.Page.{apply_packet_feed_page}
use chrono_desk.Service.SiteFeed.Review.{apply_packet_feed_changes-review}
use chrono_desk.Service.SiteFeed.Plans.{apply_packet_feed_changes}
use chrono_desk.Store.Tables.{Tables}
use chrono_desk.Packet.FeedChange.{FeedAction, FeedChange, FeedPage}
use chrono_desk.Service.SiteFeed.Rows.{merged, merge_packet_feed_change}
use chrono_desk.Packet.Model.{ok}
use chrono_desk.Text.Chars.{valid_reason}
use chrono_desk.Text.Date.{valid_date}
use chrono_desk.Packet.Validate.{validate_person}
use chrono_desk.Store.Db.{
  done, branch, failed, message, or_raise, raise_if, resume, state_of, within_tx,
}
use chrono_desk.Prelude.{[], List, false, none, refl, some, true, ◌∷◌, ◌≡◌}
use chrono_desk.Service.ReceiveTests.{desk, packages}
use chrono_desk.Prelude.Classes.{string_eq, nat_eq}

-- The site creates a slot of the reserve.
abbrev created : FeedChange
created = record { registration_id = "r-2"; before = none; after = some reserve_row }

-- The site assigns a number to a row that the desk does not have.
abbrev assigned : FeedChange
assigned = record { registration_id = "r-1"; before = some owned_row; after = some numbered_row }

abbrev site_action : List FeedChange → FeedAction
site_action changes = record {
  action_id = "33333333-3333-4333-8333-333333333333";
  kind = "server_change";
  sequence = "1";
  recorded_at = "2025-05-01T10:00:00.000Z";
  source_code = "site";
  outcome = "applied";
  code = none;
  operation = none;
  changes = changes;
  canonical = [];
}

abbrev site_page : FeedPage
site_page = record {
  scope_id = "site:1:e-1";
  cursor = record { after = "0"; next = "1"; head = "1"; has_more = false };
  actions = site_action (created ∷ []) ∷ [];
}

abbrev site_desk : Tables
site_desk = record desk { races = record { id = "5k"; event_id = "e-1"; date = "2025-06-01" } ∷ [] }

-- What a run computes with.
packet : Unit {0}
unfolding apply_packet_feed_page within_tx resume raise_if or_raise branch validate_registration
    valid_optional_identifier validate_optional_person known_status identifier_pattern
    apply_packet_feed_changes unix_milli validate_person valid_reason valid_date
packet = tt

timestamp_runs : unix_milli "2025-05-01T10:00:00.000Z" ≡ some 1746093600000
unfolding packet
timestamp_runs = refl

abbrev after_page : Tables
after_page = state_of (apply_packet_feed_page packages "e-1" site_page site_desk)

page_runs :
    apply_packet_feed_page packages "e-1" site_page site_desk
    ≡ done
        (record {
          action_id = "33333333-3333-4333-8333-333333333333";
          application = "applied";
          code = none;
          known = false;
        }
          ∷ [])
        after_page
unfolding packet
page_runs = refl

apply_packet_feed_page-once_example :
    apply_packet_feed_page packages "e-1" site_page after_page
    ≡ failed (message "packet_feed_cursor_changed") after_page
apply_packet_feed_page-once_example =
    apply_packet_feed_page-once packages "e-1" site_page site_desk after_page _ refl page_runs

-- The first change could be made, the second is held.
abbrev held_action : FeedAction
held_action = site_action (created ∷ assigned ∷ [])

abbrev after_review : Tables
after_review = state_of (apply_packet_feed_changes packages "e-1" held_action site_desk)

review_runs :
    apply_packet_feed_changes packages "e-1" held_action site_desk
    ≡ done (record { application = "review"; code = some "feed_lifecycle_conflict" }) after_review
unfolding packet
review_runs = refl

apply_packet_feed_changes-review_example : after_review ≡ site_desk
apply_packet_feed_changes-review_example =
    apply_packet_feed_changes-review packages "e-1" held_action site_desk after_review
      (record { application = "review"; code = some "feed_lifecycle_conflict" }) review_runs refl

numbered_valid : validate_registration numbered_row ≡ ok tt
unfolding packet
numbered_valid = refl

merge_packet_feed_change-unchanged_example :
    merge_packet_feed_change
      (some (record {
        value = record owned_row { has_timing_evidence = true };
        heads = [];
        deleted = false;
      }))
      assigned
    ≡ merged (some (record numbered_row { has_timing_evidence = true }))
merge_packet_feed_change-unchanged_example =
    merge_packet_feed_change-unchanged "r-1" owned_row numbered_row [] true numbered_valid
