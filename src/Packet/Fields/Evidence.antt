-- ===== src/Packet/Fields/Evidence.antt =====
-- Lemmas on rows with timing evidence (internal/packetissuance/transitions.go).
use chrono_desk.Packet.Validate.{require_editable}
use chrono_desk.Packet.Model.{Change, Registration, ok}
use chrono_desk.Prelude.{arith, true, ◌≡◌}

pub editable_no_evidence :
    (source : Registration)
    → require_editable source ≡ ok tt
    → source.has_timing_evidence ≡ true
    → ⊥
unfolding require_editable
editable_no_evidence source h e = ground arith

abbrev pub Protects : Change → Type 0
Protects c =
    c.before.has_timing_evidence ≡ true → c.after ≡ record (c.before) { issued = c.after.issued }
