-- ===== src/Packet/Apply/Cases.antt =====
-- Lemmas on the cases of `Apply` (internal/packetissuance/transitions.go) that change one row.
use chrono_desk.Prelude.Classes.{◌==◌}
use chrono_desk.Packet.Apply.{one_row}
use chrono_desk.Prelude.{All, Bool-cases, List, [], arith, inl, inr, refl, subst, ◌∷◌, ◌≡◌}
use chrono_desk.Packet.Model.{registration_eq, Change, Registration, Result, err, ok}
use chrono_desk.Packet.Rows.{change, changes_of}

-- What holds of a changed row holds of the changes that the case returns.
pub one_row-All {ℓ} :
    (P : Change → Type ℓ) (source : Registration) (result : Result Registration)
    {changes : List Change}
    → ((after : Registration) → result ≡ ok after → P (change source after))
    → one_row source result ≡ ok changes
    → All P changes
unfolding one_row changes_of
one_row-All P source (err e) w h = cc
one_row-All P source (ok after) {changes} w h = elim (Bool-cases (source == after)) [
  | inl e ↦ let none_left : [] ≡ changes = ground arith in subst (All P) none_left tt
  | inr e ↦
      let one : change source after ∷ [] ≡ changes = ground arith in
      subst (All P) one (w after refl, tt)
]
