-- ===== src/Packet/Validate/Parts.antt =====
-- The parts of a row that passes `ValidateRegistration`.
use chrono_desk.Text.Chars.{identifier_pattern}
use chrono_desk.Packet.Validate.{
  known_status, valid_optional_identifier, validate_optional_person, validate_registration,
}
use chrono_desk.Packet.Model.{Registration, ok, Change}
use chrono_desk.Prelude.{arith, false, is_some, true, ◌&&◌, ◌≡◌}

pub record IsValid (row : Registration) : Type 0 where
  pub id_ok : identifier_pattern row.id ≡ true
  pub event_ok : identifier_pattern row.event_id ≡ true
  pub race_ok : identifier_pattern row.race_id ≡ true
  pub target_ok : valid_optional_identifier row.transferred_to ≡ true
  pub status_ok : known_status row.status ≡ true
  pub no_person_in_reserve : (row.reserve && is_some row.person) ≡ false
  pub person_ok : validate_optional_person row.person ≡ ok tt

pub IsValid-validate_registration :
    (row : Registration) → validate_registration row ≡ ok tt → IsValid row
unfolding validate_registration
IsValid-validate_registration row h = ground arith

pub validate_registration-IsValid :
    (row : Registration) → IsValid row → validate_registration row ≡ ok tt
unfolding validate_registration
validate_registration-IsValid row v = ground arith

abbrev pub IsValidChange : Change → Type 0
IsValidChange c = IsValid c.before × IsValid c.after
