-- ===== src/Service/Decision/Shapes.antt =====
-- The JSON of two rows has one shape (`packetValue` of internal/service/packet_issuance.go).
use chrono_desk.Service.Decision.{optional_string, packet_value, person_value}
use chrono_desk.Service.ThreeWay.Unchanged.{SameShape}
use chrono_desk.Packet.Model.{Person, Registration}
use chrono_desk.Prelude.{Option, String, none, refl, some}
use chrono_desk.Prelude.Classes.{string_eq, bool_eq, nat_eq}

pub SameShape-person_value : (p q : Option Person) → SameShape (person_value p) (person_value q)
unfolding SameShape
SameShape-person_value none none = tt
SameShape-person_value none (some q) = tt
SameShape-person_value (some p) none = tt
SameShape-person_value (some p) (some q) =
    (refl, tt, (refl, tt, (refl, tt, (refl, tt, (refl, tt, (refl, tt, (refl, tt, tt)))))))

pub SameShape-optional_string :
    (p q : Option String) → SameShape (optional_string p) (optional_string q)
unfolding SameShape
SameShape-optional_string none none = tt
SameShape-optional_string none (some q) = tt
SameShape-optional_string (some p) none = tt
SameShape-optional_string (some p) (some q) = tt

pub SameShape-packet_value : (b a : Registration) → SameShape (packet_value b) (packet_value a)
unfolding SameShape packet_value
SameShape-packet_value b a = (
  refl,
  tt,
  (
    refl,
    tt,
    (
      refl,
      tt,
      (
        refl,
        tt,
        (
          refl,
          tt,
          (
            refl,
            SameShape-person_value b.person a.person,
            (
              refl,
              tt,
              (
                refl,
                tt,
                (
                  refl,
                  tt,
                  (
                    refl,
                    SameShape-optional_string b.transferred_to a.transferred_to,
                    (refl, tt, tt),
                  ),
                ),
              ),
            ),
          ),
        ),
      ),
    ),
  ),
)
