-- ===== src/Store/Changes.antt =====
-- The changes as the feed shows them in internal/infrastructure/sqlite/packet_issuance_store.go:
-- `withoutTimingEvidence`, `withoutFeedTimingEvidence` and the lifecycle changes of `PublishPacketOperation`;
-- and `validPacketLANUUID` of packet_lan_state.go.
use chrono_desk.Prelude.{
  Bool, List, Option, String, [], all, false, if◌then◌else◌, length, none, some, suc, true, within,
  zero, ℕ, ◌&&◌, ◌||◌, ◌∷◌,
}
use chrono_desk.Store.Tables.{FeedRegistration, RelayedFeedChange}
use chrono_desk.Packet.FeedChange.{FeedChange}
use chrono_desk.Packet.Operation.{Operation}
use chrono_desk.Packet.Validate.{is_virtual_registration}
use chrono_desk.Packet.ParseOperation.{is_int}
use chrono_desk.Text.Chars.{codes}
use Prim.Native.String.{len}
use chrono_desk.Packet.Model.{
  Change, Registration, CommandType, change_race, create_registration, return_to_reserve,
}
use chrono_desk.Prelude.Classes.{string_eq, nat_eq, option_eq, ◌==◌}

-- `convert` of `withoutTimingEvidence` and `withoutFeedTimingEvidence`.
unfoldable pub feed_registration : Registration → FeedRegistration
feed_registration r = record {
  id = r.id;
  event_id = r.event_id;
  race_id = r.race_id;
  bib = r.bib;
  epc = r.epc;
  person = r.person;
  reserve = r.reserve;
  issued = r.issued;
  status = r.status;
  transferred_to = r.transferred_to;
}

unfoldable pub without_timing_evidence : List Change → List RelayedFeedChange
unfolding feed_registration
without_timing_evidence [] = []
without_timing_evidence (c ∷ cs) =
    record {
      registration_id = c.registration_id;
      before = some (feed_registration c.before);
      after = some (feed_registration c.after);
    }
    ∷ without_timing_evidence cs

optional_feed_registration : Option Registration → Option FeedRegistration
unfolding feed_registration
optional_feed_registration none = none
optional_feed_registration (some r) = some (feed_registration r)

unfoldable pub without_feed_timing_evidence : List FeedChange → List RelayedFeedChange
unfolding optional_feed_registration
without_feed_timing_evidence [] = []
without_feed_timing_evidence (c ∷ cs) =
    record {
      registration_id = c.registration_id;
      before = optional_feed_registration c.before;
      after = optional_feed_registration c.after;
    }
    ∷ without_feed_timing_evidence cs

-- The changes of a creation: a virtual row before is absent.
unfoldable pub creation_changes : List Change → List FeedChange
unfolding is_virtual_registration
creation_changes [] = []
creation_changes (c ∷ cs) =
    record {
      registration_id = c.after.id;
      before = if is_virtual_registration c.before then none else some c.before;
      after = some c.after;
    }
    ∷ creation_changes cs

-- The changes of a resolution: a virtual row after is absent.
unfoldable pub resolution_changes : List Change → List FeedChange
unfolding is_virtual_registration
resolution_changes [] = []
resolution_changes (c ∷ cs) =
    record {
      registration_id = c.registration_id;
      before = some c.before;
      after = if is_virtual_registration c.after then none else some c.after;
    }
    ∷ resolution_changes cs

is_creation : CommandType → Bool
is_creation create_registration = true
is_creation return_to_reserve = true
is_creation _ = false

unfoldable pub is_race_change : CommandType → Bool
is_race_change change_race = true
is_race_change _ = false

-- The changes that the feed shows.
unfoldable pub published_changes : Operation → List Change → List RelayedFeedChange
unfolding is_creation is_int without_timing_evidence without_feed_timing_evidence creation_changes
    resolution_changes
published_changes operation changes =
    if is_int operation.schema_version 2
    then without_feed_timing_evidence (resolution_changes changes)
    else if is_creation operation.command.type
    then without_feed_timing_evidence (creation_changes changes)
    else without_timing_evidence changes

is_hex : ℕ → Bool
is_hex c = within b'0' b'9' c || within b'a' b'f' c || within b'A' b'F' c

without_dashes : List ℕ → List ℕ
without_dashes [] = []
without_dashes (c ∷ cs) = if c == b'-' then without_dashes cs else c ∷ without_dashes cs

code_at : ℕ → List ℕ → ℕ
code_at n [] = 0
code_at zero (c ∷ cs) = c
code_at (suc n) (c ∷ cs) = code_at n cs

-- `decoded[8]&0xc0 == 0x80`: the byte's first digit is 8, 9, a or b.
is_variant_digit : ℕ → Bool
is_variant_digit c = within b'8' b'9' c || within b'a' b'b' c || within b'A' b'B' c

-- internal/infrastructure/sqlite/packet_lan_state.go
unfoldable pub valid_packet_lan_uuid : String → Bool
unfolding is_hex without_dashes code_at is_variant_digit
valid_packet_lan_uuid value =
    len value == 36
    && code_at 8 (codes value) == b'-'
    && code_at 13 (codes value) == b'-'
    && code_at 18 (codes value) == b'-'
    && code_at 23 (codes value) == b'-'
    && code_at 14 (codes value) == b'4'
    && all is_hex (without_dashes (codes value))
    && length (without_dashes (codes value)) == 32
    && is_variant_digit (code_at 16 (without_dashes (codes value)))
