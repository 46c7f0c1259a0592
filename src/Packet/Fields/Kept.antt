-- ===== src/Packet/Fields/Kept.antt =====
-- Lemmas on the field checks of `parseOperation` (internal/packetissuance/validation.go).
use chrono_desk.Packet.Model.{Registration}
use chrono_desk.Prelude.{true, ◌≡◌}
use chrono_desk.Prelude.Classes.{string_eq, bool_eq, eq_refl, ◌==◌}

-- The fields that every row keeps compare equal to themselves.
abbrev pub KeptFields : Registration → Type 0
KeptFields source =
    ((source.id == source.id) ≡ true)
    × ((source.event_id == source.event_id) ≡ true)
    × ((source.race_id == source.race_id) ≡ true)
    × ((source.bib == source.bib) ≡ true)
    × ((source.epc == source.epc) ≡ true)
    × ((source.has_timing_evidence == source.has_timing_evidence) ≡ true)

pub KeptFields-self : (source : Registration) → KeptFields source
KeptFields-self source = (
  eq_refl source.id,
  eq_refl source.event_id,
  eq_refl source.race_id,
  eq_refl source.bib,
  eq_refl source.epc,
  eq_refl source.has_timing_evidence,
)
