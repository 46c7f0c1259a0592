-- ===== src/Packet/Rows.antt =====
-- The map of rows that `Apply` builds, and the changes it returns
-- (internal/packetissuance/transitions.go).
pub mod Lookup
use chrono_desk.Packet.Validate.{validate_registration}
use chrono_desk.Prelude.{List, Option, String, [], if◌then◌else◌, is_some, none, some, ◌∷◌}
use chrono_desk.Prelude.Classes.{string_eq, bool_eq, option_eq, ◌==◌}
use chrono_desk.Packet.Model.{
  registration_eq, status_eq, Change, Registration, Result, fail_if, invalid_records, ok, ◌>>◌,
}

-- `rows[id]`
unfoldable pub find_row : String → List Registration → Option Registration
find_row id [] = none
find_row id (row ∷ rows) = if row.id == id then some row else find_row id rows

-- The loop that validates the records and enters them in a map by id.
unfoldable pub index_rows : List Registration → List Registration → Result (List Registration)
unfolding find_row
index_rows rows [] = ok rows
index_rows rows (row ∷ rest) = do
  validate_registration row
  fail_if (is_some (find_row row.id rows)) invalid_records
  index_rows (row ∷ rows) rest

abbrev pub change : Registration → Registration → Change
change before after = record { registration_id = before.id; before = before; after = after }

-- A command that changes nothing has no change.
unfoldable pub changes_of : Registration → Registration → List Change
changes_of source after = if source == after then [] else change source after ∷ []
