-- ===== src/Packet/Validate/Blank.antt =====
-- What is known of the virtual row of `EmptyRegistration`.
use chrono_desk.Packet.Validate.{empty_registration, empty_reserve}
use chrono_desk.Packet.Model.{Command, Registration, ok}
use chrono_desk.Prelude.{arith, false, none, ◌≡◌}

module _ (command : Command) {row : Registration} (e : empty_registration command ≡ ok row) where
  pub empty_registration-reserve : row.reserve ≡ false
  unfolding empty_registration
  empty_registration-reserve = ground arith

  pub empty_registration-person : row.person ≡ none
  unfolding empty_registration
  empty_registration-person = ground arith

  pub empty_registration-id : row.id ≡ command.registration_id
  unfolding empty_registration
  empty_registration-id = ground arith

  pub empty_registration-bib : row.bib ≡ ""
  unfolding empty_registration
  empty_registration-bib = ground arith

  pub empty_registration-timing : row.has_timing_evidence ≡ false
  unfolding empty_registration
  empty_registration-timing = ground arith

  pub empty_registration-event : row.event_id ≡ command.event_id
  unfolding empty_registration
  empty_registration-event = ground arith

pub empty_reserve_facts :
    (command : Command) (source : Registration) {row : Registration}
    → empty_reserve command source ≡ ok row
    → (row.event_id ≡ source.event_id) × (row.person ≡ none) × (row.has_timing_evidence ≡ false)
unfolding empty_reserve
empty_reserve_facts command source e =
    (empty_registration-event _ e, empty_registration-person _ e, empty_registration-timing _ e)
