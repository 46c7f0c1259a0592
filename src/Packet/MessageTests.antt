-- ===== src/Packet/MessageTests.antt =====
-- An upload, a feed page and a bootstrap, and the theorems at them.
use chrono_desk.Prelude.{false, refl, some, ◌≡◌, ◌≢◌}
use chrono_desk.Packet.Model.{ok, assign_number, correct_move, equal_registration, person_beq}
use chrono_desk.Packet.Json.{object}
use chrono_desk.Packet.ParseOperation.{operation_of, parse_operation_json}
use chrono_desk.Packet.ParseOperation.Derived.{IsDerived, parse_operation_json-IsDerived}
use chrono_desk.Packet.ParseFeed.{parse_feed_page, parse_feed_action}
use chrono_desk.Packet.ParseFeed.Contiguous.{Continues, parse_feed_page-Continues}
use chrono_desk.Packet.Bootstrap.{parse_bootstrap}
use chrono_desk.Packet.Bootstrap.Consistent.{IsConsistent, parse_bootstrap-IsConsistent}
use chrono_desk.Service.Decision.{packet_value}
use chrono_desk.Text.Date.{valid_date}
use chrono_desk.Text.Chars.{valid_reason, canonical_cursor_pattern, identifier_pattern}
use chrono_desk.Text.Decimal.{parse_int}
use chrono_desk.Packet.Numbers.{apply_assign_number}
use chrono_desk.Packet.Validate.{
  validate_registration, known_status, require_assigned, require_editable,
  valid_optional_identifier, validate_optional_person,
}
use chrono_desk.Samples.{upload_fields, uploaded, page_value, page, bootstrap_value, bootstrap}

pub upload_runs : parse_operation_json (some (object upload_fields)) false ≡ ok uploaded
unfolding parse_operation_json packet_value valid_date validate_registration
    valid_optional_identifier known_status validate_optional_person apply_assign_number
    require_editable require_assigned equal_registration person_beq
upload_runs = refl

page_runs : parse_feed_page (some page_value) "site:1:e-1" "7" ≡ ok page
unfolding parse_feed_page parse_int canonical_cursor_pattern identifier_pattern parse_feed_action
    validate_registration valid_optional_identifier known_status validate_optional_person
page_runs = refl

bootstrap_runs : parse_bootstrap (some bootstrap_value) ≡ ok bootstrap
unfolding parse_bootstrap parse_int valid_date packet_value valid_reason validate_registration
    valid_optional_identifier known_status validate_optional_person
bootstrap_runs = refl

pub not_correction : assign_number ≢ correct_move
not_correction e = cc

parse_operation_json-IsDerived_example : IsDerived uploaded
unfolding operation_of
parse_operation_json-IsDerived_example =
    parse_operation_json-IsDerived (some (object upload_fields)) upload_runs not_correction

parse_feed_page-Continues_example : Continues page "7"
parse_feed_page-Continues_example =
    parse_feed_page-Continues (some page_value) "site:1:e-1" "7" page_runs

parse_bootstrap-IsConsistent_example : IsConsistent bootstrap
parse_bootstrap-IsConsistent_example =
    parse_bootstrap-IsConsistent (some bootstrap_value) bootstrap_runs
