-- ===== src/Packet/Rows/Lookup.antt =====
-- Lemmas on the map of rows that `Apply` builds (internal/packetissuance/transitions.go).
use chrono_desk.Packet.Validate.{validate_registration}
use chrono_desk.Packet.Validate.Parts.{IsValid, IsValid-validate_registration}
use chrono_desk.Packet.Rows.{find_row, index_rows}
use chrono_desk.Packet.Model.{>>=-eq-ok, Registration, ok, fail_if, invalid_records}
use chrono_desk.Prelude.{
  All, Bool-cases, List, String, [], arith, inl, inr, some, subst, ◌∷◌, ◌≡◌, is_some,
}
use chrono_desk.Prelude.Classes.{string_eq, eq_iff, ◌==◌}

pub find_row-id :
    (id : String) (rows : List Registration) {row : Registration}
    → find_row id rows ≡ some row
    → row.id ≡ id
unfolding find_row
find_row-id id [] h = cc
find_row-id id (r ∷ rows) {row} h = ground (arith, eq_iff r.id id, find_row-id id rows {row = row})

pub find_row-All {ℓ} :
    (P : Registration → Type ℓ) (id : String) (rows : List Registration) {row : Registration}
    → All P rows
    → find_row id rows ≡ some row
    → P row
unfolding find_row
find_row-All P id [] v h = cc
find_row-All P id (r ∷ rows) {row} v h = elim (Bool-cases (r.id == id)) [
  | inl e ↦ let same : r ≡ row = ground arith in subst P same v.0
  | inr e ↦ find_row-All P id rows v.1 (ground arith)
]

pub index_rows-IsValid :
    (rows records : List Registration) {indexed : List Registration}
    → All IsValid rows
    → index_rows rows records ≡ ok indexed
    → All IsValid indexed
unfolding index_rows
index_rows-IsValid rows [] v h = subst (All IsValid) (cc) v
index_rows-IsValid rows (row ∷ rest) v h =
    let (_, e0, h0) = >>=-eq-ok (validate_registration row) _ h in
    let (_, e1, h1) = >>=-eq-ok (fail_if (is_some (find_row row.id rows)) invalid_records) _ h0 in
    index_rows-IsValid (row ∷ rows) rest (IsValid-validate_registration row e0, v) h1
