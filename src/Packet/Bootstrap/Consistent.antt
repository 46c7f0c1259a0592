-- ===== src/Packet/Bootstrap/Consistent.antt =====
-- Proofs on what `ParseBootstrap` (internal/packetissuance/validation.go) accepts.
use chrono_desk.Text.Decimal.{ℤ}
use chrono_desk.Packet.Validate.{validate_registration}
use chrono_desk.Prelude.{
  All, Bool, List, String, [], all, any, arith, false, not, subst, true, ◌||◌, ◌∷◌, ◌≡◌, Option,
  or_parts, not-false,
}
use chrono_desk.Prelude.Classes.{
  Unseen, Unseen-tail, Unseen-head, string_eq, nat_eq, eq_iff, ◌==◌, Distinct,
}
use chrono_desk.Packet.Model.{
  Registration, ok, invalid_bootstrap, invalid, >>=-eq-ok, >>-eq-ok, fail_if-eq-ok, ok-injective,
  or_fail,
}
use chrono_desk.Packet.Json.{
  integer, Value, get, as_bool, as_object, string_value, Fields, as_array, items_list, has_key,
}
use chrono_desk.Packet.Operation.{parse_registration, parse_optional_person, parse_optional_string}
use chrono_desk.Packet.ParseOperation.{recode, recode-eq-ok}
use chrono_desk.Packet.Bootstrap.{
  remove_key, Bootstrap, Race, race_ids, row_ids, known_target, parse_races, parse_rows,
  first_cursor, parse_bootstrap, parse_bootstrap_body, parse_event, parse_optional_origins,
}

parse_registration-valid :
    (v : Value) {row : Registration}
    → parse_registration v ≡ ok row
    → validate_registration row ≡ ok tt
unfolding parse_registration
parse_registration-valid v {row} h =
    let (obj, e0, h0) = >>=-eq-ok (or_fail (as_object v) invalid) _ h in
    let (e1, h1) = >>-eq-ok _ _ h0 in
    let (reserve, e2, h2) = >>=-eq-ok (or_fail (as_bool (get "reserve" obj)) invalid) _ h1 in
    let (issued, e3, h3) = >>=-eq-ok (or_fail (as_bool (get "issued" obj)) invalid) _ h2 in
    let (evidence, e4, h4) =
      >>=-eq-ok (or_fail (as_bool (get "hasTimingEvidence" obj)) invalid) _ h3 in
    let (person, e5, h5) = >>=-eq-ok (parse_optional_person (get "person" obj)) _ h4 in
    let (target, e6, h6) = >>=-eq-ok (parse_optional_string (get "transferredTo" obj)) _ h5 in
    let (e7, h7) = >>-eq-ok _ _ h6 in
    subst (λ r. validate_registration r ≡ ok tt) (ok-injective h7) e7

-- A valid row of the event, in one of the races.
abbrev pub RowOf : String → List String → Registration → Type 0
RowOf event_id races row =
    (validate_registration row ≡ ok tt)
    × (row.event_id ≡ event_id)
    × (any (λ id. id == row.race_id) races ≡ true)

three_parts : (a b c : Bool) → (not a || not b || c) ≡ false → (a ≡ true) × (b ≡ true) × (c ≡ false)
three_parts a b c h = ground arith

parse_rows-RowOf :
    (event_id : String) (races seen : List String) (raw : List Value) {rows : List Registration}
    → parse_rows event_id races seen raw ≡ ok rows
    → All (RowOf event_id races) rows × Unseen seen (row_ids rows) × Distinct (row_ids rows)
unfolding parse_rows
parse_rows-RowOf event_id races seen [] h =
    subst (λ rs. All (RowOf event_id races) rs × Unseen seen (row_ids rs) × Distinct (row_ids rs))
      {x = []} (ok-injective h) (tt, tt, tt)
parse_rows-RowOf event_id races seen (v ∷ rest) h =
    let (row, e0, h0) = >>=-eq-ok (recode invalid_bootstrap (parse_registration v)) _ h in
    let (e1, h1) = >>-eq-ok _ _ h0 in
    let (rows, e2, h2) = >>=-eq-ok (parse_rows event_id races (row.id ∷ seen) rest) _ h1 in
    let (fits, unseen, distinct) = parse_rows-RowOf event_id races (row.id ∷ seen) rest e2 in
    let (same_event, known, fresh) = three_parts _ _ _ (fail_if-eq-ok _ _ e1) in
    subst (λ rs. All (RowOf event_id races) rs × Unseen seen (row_ids rs) × Distinct (row_ids rs))
      {x = row ∷ rows} (ok-injective h2)
      (
        (
          (
            parse_registration-valid v (recode-eq-ok _ _ e0),
            (eq_iff row.event_id event_id).0 same_event,
            known,
          ),
          fits,
        ),
        (fresh, Unseen-tail row.id seen (row_ids rows) unseen),
        (Unseen-head row.id seen (row_ids rows) unseen, distinct),
      )

parse_races-Distinct :
    (seen : List String) (raw : List Value) {races : List Race}
    → parse_races seen raw ≡ ok races
    → Unseen seen (race_ids races) × Distinct (race_ids races)
unfolding parse_races
parse_races-Distinct seen [] h =
    subst (λ rs. Unseen seen (race_ids rs) × Distinct (race_ids rs)) {x = []} (ok-injective h)
      (tt, tt)
parse_races-Distinct seen (v ∷ rest) h =
    let (obj, e0, h0) = >>=-eq-ok (or_fail (as_object v) invalid_bootstrap) _ h in
    let (e1, h1) = >>-eq-ok _ _ h0 in
    let (e2, h2) = >>-eq-ok _ _ h1 in
    let id = string_value (get "id" obj) in
    let (races, e3, h3) = >>=-eq-ok (parse_races (id ∷ seen) rest) _ h2 in
    let (unseen, distinct) = parse_races-Distinct (id ∷ seen) rest e3 in
    let (_, fresh) = or_parts _ _ (fail_if-eq-ok _ _ e2) in
    subst (λ rs. Unseen seen (race_ids rs) × Distinct (race_ids rs))
      {x = record { id = id; name = string_value (get "name" obj) } ∷ races} (ok-injective h3)
      (
        (fresh, Unseen-tail id seen (race_ids races) unseen),
        (Unseen-head id seen (race_ids races) unseen, distinct),
      )

all-All :
    (q : Registration → Bool) (rows : List Registration)
    → all q rows ≡ true
    → All (λ r. q r ≡ true) rows
all-All q [] h = tt
all-All q (r ∷ rs) h = (ground arith, all-All q rs (ground arith))

pub record IsConsistent (b : Bootstrap) : Type 0 where
  pub rows : All (RowOf (b.event.id) (race_ids b.races)) b.registrations
  pub distinct_rows : Distinct (row_ids b.registrations)
  pub distinct_races : Distinct (race_ids b.races)
  pub targets : All (λ r. known_target (row_ids b.registrations) r ≡ true) b.registrations

parse_bootstrap_body-IsConsistent :
    (has_origins : Bool) (raw_origins : Value) (version : ℤ) (obj : Fields) {b : Bootstrap}
    → parse_bootstrap_body has_origins raw_origins version obj ≡ ok b
    → IsConsistent b
unfolding parse_bootstrap_body
parse_bootstrap_body-IsConsistent has_origins raw_origins version obj h =
    let (feed_after, e0, h0) = >>=-eq-ok (first_cursor version (get "feedCursor" obj)) _ h in
    let (event, e1, h1) = >>=-eq-ok (parse_event (get "event" obj)) _ h0 in
    let (raw_races, e2, h2) =
      >>=-eq-ok (or_fail (as_array (get "races" obj)) invalid_bootstrap) _ h1 in
    let (raw_rows, e3, h3) =
      >>=-eq-ok (or_fail (as_array (get "registrations" obj)) invalid_bootstrap) _ h2 in
    let (e4, h4) = >>-eq-ok _ _ h3 in
    let (races, e5, h5) = >>=-eq-ok (parse_races [] (items_list raw_races)) _ h4 in
    let (rows, e6, h6) =
      >>=-eq-ok (parse_rows event.id (race_ids races) [] (items_list raw_rows)) _ h5 in
    let (e7, h7) = >>-eq-ok _ _ h6 in
    let (origins, e8, h8) =
      >>=-eq-ok (parse_optional_origins has_origins (race_ids races) raw_origins) _ h7 in
    let (fits, unseen, distinct) =
      parse_rows-RowOf event.id (race_ids races) [] (items_list raw_rows) e6 in
    subst IsConsistent (ok-injective h8) (record {
      rows = fits;
      distinct_rows = distinct;
      distinct_races = (parse_races-Distinct [] (items_list raw_races) e5).1;
      targets =
          all-All (known_target (row_ids rows)) rows
            (not-false (all (known_target (row_ids rows)) rows) (fail_if-eq-ok _ _ e7));
    })

-- An accepted bootstrap is consistent: each row is valid, of the event and in one of its races; no two
-- rows and no two races have one id; and a row that was transferred names another row of the bootstrap.
pub parse_bootstrap-IsConsistent :
    (decoded : Option Value) {b : Bootstrap} → parse_bootstrap decoded ≡ ok b → IsConsistent b
unfolding parse_bootstrap
parse_bootstrap-IsConsistent decoded h =
    let (root, e0, h0) = >>=-eq-ok (or_fail decoded invalid_bootstrap) _ h in
    let (fields, e1, h1) = >>=-eq-ok (or_fail (as_object root) invalid_bootstrap) _ h0 in
    let (e2, h2) = >>-eq-ok _ _ h1 in
    let obj = remove_key "reserveOrigins" fields in
    parse_bootstrap_body-IsConsistent (has_key "reserveOrigins" fields)
      (get "reserveOrigins" fields) (integer (get "schemaVersion" obj)) obj h2
