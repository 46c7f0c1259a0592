-- ===== src/Store/Tables.antt =====
-- The tables of packet issuance in internal/infrastructure/sqlite/schema.sql, with the records that
-- packet_issuance_store.go reads from them. A column of JSON holds the decoded value, and the operation of a row
-- its canonical text.
use chrono_desk.Prelude.{Bool, List, Option, String, ℕ}
use chrono_desk.Text.Decimal.{ℤ}
use chrono_desk.Packet.Model.{Person, Registration, Status}

pub record PacketIssuanceScope : Type 0 where
  pub event_id : String
  pub scope_id : String
  pub baseline_id : String
  pub source_kind : String
  pub installed_at : ℕ
  pub site_feed_cursor : String

-- packet_issuance_registrations
pub record RegistrationRow : Type 0 where
  pub registration_id : String
  pub event_id : String
  pub value : Registration
  pub heads : List String
  pub deleted : Bool

-- packet_issuance_site_registrations
pub record SiteRegistrationRow : Type 0 where
  pub event_id : String
  pub registration_id : String
  pub value : Registration
  pub deleted : Bool

-- packet_issuance_operations
pub record OperationRow : Type 0 where
  pub operation_id : String
  pub event_id : String
  pub scope_id : String
  pub baseline_id : String
  pub origin_instance_id : String
  pub origin_sequence : ℕ
  pub content_hash : String
  pub operation_json : List ℕ
  pub outcome : String
  pub outcome_code : Option String
  pub recorded_at : ℕ
  pub site_acknowledged : Bool
  pub site_outcome : Option String
  pub site_outcome_code : Option String
  pub site_attempts : ℕ

-- packet_issuance_feed_heads
pub record FeedHead : Type 0 where
  pub event_id : String
  pub last_sequence : ℕ
  pub first_available_sequence : ℕ

-- `packetFeedRegistration`: a row without its timing evidence.
pub record FeedRegistration : Type 0 where
  pub id : String
  pub event_id : String
  pub race_id : String
  pub bib : String
  pub epc : String
  pub person : Option Person
  pub reserve : Bool
  pub issued : Bool
  pub status : Status
  pub transferred_to : Option String

-- `packetRelayedFeedChange`, and `packetFeedChange`, whose images are both present.
pub record RelayedFeedChange : Type 0 where
  pub registration_id : String
  pub before : Option FeedRegistration
  pub after : Option FeedRegistration

-- packet_issuance_feed_actions
pub record FeedRow : Type 0 where
  pub action_id : String
  pub event_id : String
  pub sequence : ℕ
  pub kind : String
  pub source_code : String
  pub source_operation_id : Option String
  pub outcome : String
  pub outcome_code : Option String
  pub changes : List RelayedFeedChange
  pub recorded_at : ℕ

-- packet_issuance_feed_archives, whose changes are compressed.
pub record ArchivedRow : Type 0 where
  pub row : FeedRow
  pub archived_at : ℕ

-- packet_issuance_site_feed_actions
pub record SiteFeedRow : Type 0 where
  pub action_id : String
  pub event_id : String
  pub site_sequence : String
  pub action_json : List ℕ
  pub application : String
  pub application_code : Option String
  pub recorded_at : ℕ

-- packet_issuance_resolutions
pub record ResolutionRow : Type 0 where
  pub resolution_operation_id : String
  pub event_id : String
  pub input_operation_id : String
  pub keep_input : Bool
  pub reason : String
  pub recorded_at : ℕ

-- packet_issuance_snapshot_rebases; the two columns of JSON are texts.
pub record RebaseRow : Type 0 where
  pub event_id : String
  pub scope_id : String
  pub before_baseline_id : String
  pub after_baseline_id : String
  pub before_cursor : String
  pub after_cursor : String
  pub snapshot_json : List ℕ
  pub applications_json : List ℕ
  pub recorded_at : ℕ

-- The columns of members that the operations of packet issuance read or write.
pub record MemberRow : Type 0 where
  pub id : String
  pub event_id : String
  pub race_id : String
  pub category_id : Option String
  pub number : Option ℤ
  pub epc : Option String
  pub rfid : Option String
  pub first_name : String
  pub last_name : String
  pub gender : Option String
  pub dob : Option String
  pub team : Option String
  pub city : Option String
  pub status : ℕ
  pub start_time_ms : Option ℕ
  pub start_time_source : String
  pub start_observation_id : Option String
  pub finish_time_ms : Option ℕ
  pub clean_time : Option String

-- The columns of rfid_logs that they read.
pub record RfidLogRow : Type 0 where
  pub event_id : String
  pub number : ℤ
  pub epc : String

pub record EventRow : Type 0 where
  pub id : String
  pub use_race_date_for_age : Bool

pub record RaceRow : Type 0 where
  pub id : String
  pub event_id : String
  pub date : String

-- A row of categories; races have them by race_categories.
pub record CategoryRow : Type 0 where
  pub id : String
  pub min : Option ℤ
  pub max : Option ℤ
  pub gender : Option String

-- member_club_metadata
pub record ClubRow : Type 0 where
  pub event_id : String
  pub member_id : String
  pub club : Option String

pub record Tables : Type 0 where
  pub scopes : List PacketIssuanceScope
  pub operations : List OperationRow
  pub registrations : List RegistrationRow
  pub site_registrations : List SiteRegistrationRow
  pub feed_heads : List FeedHead
  pub feed_actions : List FeedRow
  pub feed_archives : List ArchivedRow
  pub site_feed_actions : List SiteFeedRow
  pub resolutions : List ResolutionRow
  pub rebases : List RebaseRow
  pub members : List MemberRow
  -- The member of each row of results.
  pub results : List String
  pub rfid_logs : List RfidLogRow
  pub events : List EventRow
  pub races : List RaceRow
  -- race_categories with the category of each row.
  pub race_categories : List (String × CategoryRow)
  pub clubs : List ClubRow
