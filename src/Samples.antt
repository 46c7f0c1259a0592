-- ===== src/Samples.antt =====
-- Rows, commands, messages and photos that the tests run on.
use chrono_desk.Prelude.{List, Option, [], false, none, some, true, ℕ, ◌∷◌}
use chrono_desk.Packet.Model.{
  assign_number, Command, Person, Registration, no_command, registered, dns, issue, move_race,
}
use chrono_desk.Text.Decimal.{pos}
use chrono_desk.Packet.Json.{
  null, boolean, string, number, array, object, nil, cons, end, field, Value, Fields,
}
use chrono_desk.Packet.Rows.{change}
use chrono_desk.Packet.Canonical.{write_canonical}
use chrono_desk.Packet.Operation.{Operation}
use chrono_desk.Packet.ParseOperation.{operation_of}
use chrono_desk.Packet.FeedChange.{FeedPage}
use chrono_desk.Packet.Bootstrap.{Bootstrap}
use chrono_desk.Service.Decision.{packet_value}
use chrono_desk.Service.Merge.{Photo}

abbrev pub ann : Person
ann = record {
  id = "p-1";
  first_name = "Ann";
  last_name = "Lee";
  birth_date = "2000-02-29";
  gender = "female";
  team = "";
  city = "Omsk";
}

abbrev pub owned_row : Registration
owned_row = record {
  id = "r-1";
  event_id = "e-1";
  race_id = "10k";
  bib = "";
  epc = "";
  person = some ann;
  reserve = false;
  issued = false;
  status = registered;
  transferred_to = none;
  has_timing_evidence = false;
}

abbrev pub reserve_row : Registration
reserve_row = record owned_row {
  id = "r-2";
  race_id = "5k";
  bib = "7";
  person = none;
  reserve = true;
}

abbrev pub timed_row : Registration
timed_row = record owned_row { id = "r-3"; bib = "9"; has_timing_evidence = true }

abbrev pub rows : List Registration
rows = owned_row ∷ reserve_row ∷ timed_row ∷ []

abbrev pub assign : Command
assign = record no_command {
  type = assign_number;
  registration_id = "r-1";
  bib = "12";
  issue_packet = some true;
}

abbrev pub numbered_row : Registration
numbered_row = record owned_row { bib = "12"; issued = true }

abbrev pub move : Command
move = record no_command {
  type = move_race;
  registration_id = "r-1";
  target_id = "r-2";
  issue_packet = some true;
}

abbrev pub left_row : Registration
left_row = record owned_row { status = dns; transferred_to = some "r-2" }

abbrev pub moved_row : Registration
moved_row = record reserve_row { person = some ann; reserve = false; issued = true }

abbrev pub issue_timed : Command
issue_timed = record no_command { type = issue; registration_id = "r-3" }

abbrev pub after_move : List Registration
after_move = left_row ∷ moved_row ∷ timed_row ∷ []

-- An upload that assigns the number 12.
abbrev pub upload_fields : Fields
upload_fields = field "schemaVersion" (number "1") (
    field "operationId" (string "11111111-1111-4111-8111-111111111111") (
      field "scopeId" (string "site:1:e-1") (
        field "baselineId" (string "b-1") (
          field "originInstanceId" (string "22222222-2222-4222-8222-222222222222") (
            field "originSequence" (number "1") (
              field "createdAtMs" (number "1000") (
                field "claimedActor" (string "Kim") (
                  field "command"
                    (object (
                      field "type" (string "assign_number") (
                        field "registrationId" (string "r-1")
                          (field "bib" (string "12") (field "issuePacket" (boolean true) end)))))
                    (field "bases"
                      (array (
                        cons
                          (object
                            (field "registrationId" (string "r-1") (field "heads" (array nil) end)))
                          nil))
                      (field "changes"
                        (array (
                          cons
                            (object (
                              field "registrationId" (string "r-1") (
                                field "before" (packet_value owned_row)
                                  (field "after" (packet_value numbered_row) end))))
                            nil))
                        end))))))))))

abbrev text_or_nothing : Option (List ℕ) → List ℕ
text_or_nothing none = []
text_or_nothing (some cs) = cs

abbrev pub uploaded : Operation
uploaded =
    operation_of upload_fields (text_or_nothing (write_canonical (object upload_fields))) 1 1000
      assign ((record { registration_id = "r-1"; heads = [] }, change owned_row numbered_row) ∷ [])
      none

-- The feed's form of a row.
abbrev pub feed_row : Registration → Value
feed_row r = object (
    field "id" (string r.id) (
      field "eventId" (string r.event_id) (
        field "raceId" (string r.race_id) (
          field "bib" (string r.bib) (
            field "epc" (string r.epc) (
              field "person" null (
                field "reserve" (boolean r.reserve) (
                  field "issued" (boolean r.issued)
                    (field "status" (string "registered") (field "transferredTo" null end))))))))))

abbrev pub feed_action_value : Value
feed_action_value = object (
    field "actionId" (string "33333333-3333-4333-8333-333333333333") (
      field "kind" (string "server_change") (
        field "sequence" (string "8") (
          field "recordedAt" (string "2025-05-01T10:00:00.000Z") (
            field "sourceCode" (string "site") (
              field "outcome" (string "applied") (
                field "code" null (
                  field "operation" null (
                    field "changes"
                      (array (
                        cons
                          (object (
                            field "registrationId" (string "r-2")
                              (field "before" null (field "after" (feed_row reserve_row) end))))
                          nil))
                      end)))))))))

abbrev pub page_value : Value
page_value = object (
    field "schemaVersion" (number "1") (
      field "scopeId" (string "site:1:e-1") (
        field "cursor"
          (object (
            field "after" (string "7") (
              field "next" (string "8")
                (field "head" (string "9") (field "hasMore" (boolean true) end)))))
          (field "actions" (array (cons feed_action_value nil)) end))))

abbrev pub page : FeedPage
page = record {
  scope_id = "site:1:e-1";
  cursor = record { after = "7"; next = "8"; head = "9"; has_more = true };
  actions =
      record {
        action_id = "33333333-3333-4333-8333-333333333333";
        kind = "server_change";
        sequence = "8";
        recorded_at = "2025-05-01T10:00:00.000Z";
        source_code = "site";
        outcome = "applied";
        code = none;
        operation = none;
        changes = record { registration_id = "r-2"; before = none; after = some reserve_row } ∷ [];
        canonical = text_or_nothing (write_canonical feed_action_value);
      }
      ∷ [];
}

-- A bootstrap with one race and one row.
abbrev pub bootstrap_value : Value
bootstrap_value = object (
    field "schemaVersion" (number "1") (
      field "scopeId" (string "site:1:e-1") (
        field "sourceKind" (string "site") (
          field "event"
            (object (
              field "id" (string "e-1")
                (field "name" (string "Run") (field "date" (string "2025-05-01") end))))
            (field "races"
              (array
                (cons (object (field "id" (string "10k") (field "name" (string "10 km") end))) nil))
              (field "registrations" (array (cons (packet_value owned_row) nil))
                (field "baselineId" (string "b-1") end)))))))

abbrev pub bootstrap : Bootstrap
bootstrap = record {
  reserve_origins = none;
  schema_version = pos 1;
  scope_id = "site:1:e-1";
  source_kind = "site";
  event = record { id = "e-1"; name = "Run"; date = "2025-05-01" };
  races = record { id = "10k"; name = "10 km" } ∷ [];
  registrations = owned_row ∷ [];
  baseline_id = "b-1";
  feed_cursor = "0";
}

-- Two cameras see one runner; a third photo shows another number.
abbrev pub left_photo : Photo
left_photo = record {
  id = "f-1";
  source_id = "cam-1";
  camera_label = "left";
  time_ms = 5000;
  bib = "";
  bib_source = "";
  best_photo_url = "";
  frames = "";
}

abbrev pub right_photo : Photo
right_photo = record left_photo {
  id = "f-2";
  source_id = "cam-2";
  camera_label = "right";
  time_ms = 5400;
  bib = "12";
}

abbrev pub other_photo : Photo
other_photo = record right_photo { id = "f-3"; source_id = "cam-1"; time_ms = 5500; bib = "13" }

abbrev pub photos : List Photo
photos = other_photo ∷ left_photo ∷ right_photo ∷ []
