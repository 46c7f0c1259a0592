-- ===== src/Packet/Bootstrap.antt =====
-- `ParseBootstrap` of internal/packetissuance/validation.go, on the value that `decodeValue` returns;
-- `none` stands for its error. An object that is not a map has no key, so that its version is refused.
pub mod Consistent
use chrono_desk.Service.Receive.Numbers.{after_number}
use chrono_desk.Text.Decimal.{ℤ}
use chrono_desk.Text.Date.{valid_date}
use chrono_desk.Text.Chars.{identifier_pattern, valid_text}
use chrono_desk.Prelude.{
  Bool, List, Option, String, [], all, any, if◌then◌else◌, leb, none, not, some, true, ◌&&◌, ◌++◌,
  ◌||◌, ◌∷◌,
}
use chrono_desk.Prelude.Classes.{string_eq, nat_eq, ◌==◌}
use chrono_desk.Packet.Model.{
  ok, invalid_bootstrap, ◌>>=◌, ◌>>◌, Registration, Result, fail_if, or_fail,
}
use chrono_desk.Packet.Json.{
  Value, get, field, end, Fields, as_array, as_object, exact_keys, has_key, integer, item_count,
  items_list, string_value,
}
use chrono_desk.Packet.Operation.{parse_registration}
use chrono_desk.Packet.ParseOperation.{is_int, recode}
use chrono_desk.Packet.FeedChange.{feed_cursor}
use chrono_desk.Packet.Reserves.{ReserveOrigin}

pub record Event : Type 0 where
  pub id : String
  pub name : String
  pub date : String

pub record Race : Type 0 where
  pub id : String
  pub name : String

pub record Bootstrap : Type 0 where
  pub reserve_origins : Option (List ReserveOrigin)
  pub schema_version : ℤ
  pub scope_id : String
  pub source_kind : String
  pub event : Event
  pub races : List Race
  pub registrations : List Registration
  pub baseline_id : String
  pub feed_cursor : String

-- `delete(obj, key)`
unfoldable pub remove_key : String → Fields → Fields
remove_key key end = end
remove_key key (field k v fs) =
    let rest = remove_key key fs in if k == key then rest else field k v rest

abbrev bootstrap_keys : List String
bootstrap_keys =
    "schemaVersion" ∷ "scopeId" ∷ "sourceKind" ∷ "event" ∷ "races" ∷ "registrations" ∷ "baselineId"
    ∷ []

has_bootstrap_keys : ℤ → Fields → Bool
unfolding exact_keys is_int
has_bootstrap_keys version obj =
    (is_int version 1 && exact_keys obj bootstrap_keys)
    || (is_int version 2 && exact_keys obj (bootstrap_keys ++ ("feedCursor" ∷ [])))

unfoldable pub first_cursor : ℤ → Value → Result String
unfolding feed_cursor is_int
first_cursor version raw =
    if is_int version 2
    then (do (after, after_number) ← or_fail (feed_cursor raw) invalid_bootstrap; ok after)
    else ok "0"

unfoldable pub parse_event : Value → Result Event
unfolding exact_keys get string_value identifier_pattern valid_text
parse_event value = do
  obj ← or_fail (as_object value) invalid_bootstrap
  fail_if (not (exact_keys obj ("id" ∷ "name" ∷ "date" ∷ []))) invalid_bootstrap
  let event : Event = record {
    id = string_value (get "id" obj);
    name = string_value (get "name" obj);
    date = string_value (get "date" obj);
  }
  fail_if
      (not (identifier_pattern event.id)
        || not (valid_text event.name 512)
        || not (valid_date event.date))
      invalid_bootstrap
  ok event

-- The loop over the races, with the ids that it has seen.
unfoldable pub parse_races : List String → List Value → Result (List Race)
unfolding exact_keys get string_value identifier_pattern valid_text
parse_races seen [] = ok []
parse_races seen (raw ∷ rest) = do
  obj ← or_fail (as_object raw) invalid_bootstrap
  fail_if (not (exact_keys obj ("id" ∷ "name" ∷ []))) invalid_bootstrap
  let race : Race = record {
    id = string_value (get "id" obj);
    name = string_value (get "name" obj);
  }
  fail_if
      (not (identifier_pattern race.id)
        || not (valid_text race.name 256)
        || any (λ id. id == race.id) seen)
      invalid_bootstrap
  races ← parse_races (race.id ∷ seen) rest
  ok (race ∷ races)

abbrev pub race_ids : List Race → List String
race_ids [] = []
race_ids (r ∷ rs) = r.id ∷ race_ids rs

abbrev pub row_ids : List Registration → List String
row_ids [] = []
row_ids (r ∷ rs) = r.id ∷ row_ids rs

-- The loop over the registrations, with the ids that it has seen.
unfoldable pub parse_rows :
    String → List String → List String → List Value → Result (List Registration)
unfolding parse_registration
parse_rows event_id races seen [] = ok []
parse_rows event_id races seen (raw ∷ rest) = do
  row ← recode invalid_bootstrap (parse_registration raw)
  fail_if
      (not (row.event_id == event_id)
        || not (any (λ id. id == row.race_id) races)
        || any (λ id. id == row.id) seen)
      invalid_bootstrap
  rows ← parse_rows event_id races (row.id ∷ seen) rest
  ok (row ∷ rows)

abbrev pub known_target : List String → Registration → Bool
known_target ids row = elim row.transferred_to [
  | none ↦ true
  | some target ↦ not (target == row.id) && any (λ id. id == target) ids
]

-- The loop over the reserve origins, with the ids that it has seen.
unfoldable pub parse_origins : List String → List String → List Value → Result (List ReserveOrigin)
unfolding exact_keys get string_value identifier_pattern valid_text
parse_origins races seen [] = ok []
parse_origins races seen (raw ∷ rest) = do
  obj ← or_fail (as_object raw) invalid_bootstrap
  fail_if (not (exact_keys obj ("registrationId" ∷ "bib" ∷ "epc" ∷ "raceId" ∷ [])))
      invalid_bootstrap
  let origin : ReserveOrigin = record {
    registration_id = string_value (get "registrationId" obj);
    bib = string_value (get "bib" obj);
    epc = string_value (get "epc" obj);
    race_id = string_value (get "raceId" obj);
  }
  fail_if
      (not (identifier_pattern origin.registration_id)
        || any (λ id. id == origin.registration_id) seen
        || not (any (λ id. id == origin.race_id) races)
        || origin.bib == ""
        || not (valid_text origin.bib 64)
        || not (valid_text origin.epc 128))
      invalid_bootstrap
  origins ← parse_origins races (origin.registration_id ∷ seen) rest
  ok (origin ∷ origins)

unfoldable pub parse_optional_origins :
    Bool → List String → Value → Result (Option (List ReserveOrigin))
unfolding parse_origins
parse_optional_origins has_origins races raw =
    if has_origins
    then (do
      list ← or_fail (as_array raw) invalid_bootstrap
      fail_if (not (leb (item_count list) 20000)) invalid_bootstrap
      origins ← parse_origins races [] (items_list list)
      ok (some origins))
    else ok none

-- Behind the check of the keys.
unfoldable pub parse_bootstrap_body : Bool → Value → ℤ → Fields → Result Bootstrap
unfolding first_cursor parse_event parse_races parse_rows parse_optional_origins
parse_bootstrap_body has_origins raw_origins version obj = do
  feed_after ← first_cursor version (get "feedCursor" obj)
  event ← parse_event (get "event" obj)
  raw_races ← or_fail (as_array (get "races" obj)) invalid_bootstrap
  raw_rows ← or_fail (as_array (get "registrations" obj)) invalid_bootstrap
  fail_if (not (leb (item_count raw_races) 1000) || not (leb (item_count raw_rows) 20000))
      invalid_bootstrap
  races ← parse_races [] (items_list raw_races)
  rows ← parse_rows event.id (race_ids races) [] (items_list raw_rows)
  fail_if (not (all (known_target (row_ids rows)) rows)) invalid_bootstrap
  origins ← parse_optional_origins has_origins (race_ids races) raw_origins
  ok (record {
    reserve_origins = origins;
    schema_version = version;
    scope_id = string_value (get "scopeId" obj);
    source_kind = "site";
    event = event;
    races = races;
    registrations = rows;
    baseline_id = string_value (get "baselineId" obj);
    feed_cursor = feed_after;
  })

unfoldable pub parse_bootstrap : Option Value → Result Bootstrap
unfolding remove_key has_bootstrap_keys parse_bootstrap_body has_key integer string_value
    identifier_pattern get
parse_bootstrap decoded = do
  root ← or_fail decoded invalid_bootstrap
  fields ← or_fail (as_object root) invalid_bootstrap
  let obj = remove_key "reserveOrigins" fields
  let version = integer (get "schemaVersion" obj)
  fail_if
      (not (has_bootstrap_keys version obj)
        || not (string_value (get "sourceKind" obj) == "site")
        || not (identifier_pattern (string_value (get "scopeId" obj)))
        || not (identifier_pattern (string_value (get "baselineId" obj))))
      invalid_bootstrap
  parse_bootstrap_body (has_key "reserveOrigins" fields) (get "reserveOrigins" fields) version obj
