-- ===== src/Packet/Reverse.antt =====
-- `ReverseMove` of internal/packetissuance/transitions.go: the correction of a move, derived from the
-- stored original operation.
pub mod Flags
pub mod RoundTrip
use chrono_desk.Packet.Validate.{validate_registration}
use chrono_desk.Text.Chars.{valid_reason}
use chrono_desk.Prelude.{
  Bool, List, String, [], false, if◌then◌else◌, is_some, not, some, ◌&&◌, ◌||◌, ◌∷◌,
}
use chrono_desk.Prelude.Classes.{string_eq, bool_eq, option_eq, list_eq, ◌==◌}
use chrono_desk.Packet.Model.{
  registration_eq, status_eq, person_eq, change_eq, move_race, assign_reserve, move_to_reserve,
  Change, Command, CommandType, Registration, Result, correction_review_required, dns, err, fail_if,
  is_err, no_command, ok, or_fail, registered, ◌>>=◌, ◌>>◌,
}
use chrono_desk.Packet.Rows.{change, find_row}
use chrono_desk.Packet.Apply.{apply}

unfoldable pub release_source : Registration → Bool
release_source after =
    not (is_some after.person)
    && after.reserve
    && not after.issued
    && after.status == registered
    && not (is_some after.transferred_to)

unfoldable pub empty_source : Registration → Bool
empty_source after =
    not (is_some after.person)
    && not after.reserve
    && after.bib == ""
    && after.epc == ""
    && not after.issued
    && after.status == registered
    && not (is_some after.transferred_to)

unfoldable pub legacy_source : Registration → String → Bool
legacy_source after target_id =
    after.transferred_to == some target_id && after.status == dns && not after.reserve

unfoldable pub move_type : Registration → CommandType
move_type after =
    if empty_source after
    then assign_reserve
    else if release_source after
    then move_to_reserve
    else move_race

-- The command that is replayed on the original images.
unfoldable pub replayed_command : Change → Change → Command
replayed_command source target = record no_command {
  type = move_type source.after;
  registration_id = source.registration_id;
  target_id = target.registration_id;
  issue_packet = some (target.after.issued);
  return_source = some false;
}

replays_as : Result (List Change) → List Change → Bool
replays_as (err e) original = false
replays_as (ok replayed) original = replayed == original

-- The current rows in a map by id; a later row of the same id wins.
unfoldable pub current_rows : List Registration → List Registration → Result (List Registration)
current_rows rows [] = ok rows
current_rows rows (row ∷ rest) = do
  fail_if (is_err (validate_registration row)) correction_review_required
  current_rows (row ∷ rows) rest

may_reverse : Registration → Change → Bool
may_reverse row previous =
    not row.has_timing_evidence
    && row == previous.after
    && row.id == previous.before.id
    && row.event_id == previous.before.event_id
    && row.race_id == previous.before.race_id
    && row.bib == previous.before.bib
    && row.epc == previous.before.epc

reverse_one : List Registration → Change → Result Change
unfolding may_reverse
reverse_one rows previous = do
  row ← or_fail (find_row previous.registration_id rows) correction_review_required
  fail_if (not (may_reverse row previous)) correction_review_required
  ok (change row previous.before)

reverse_all : List Registration → List Change → Result (List Change)
unfolding reverse_one
reverse_all rows [] = ok []
reverse_all rows (previous ∷ rest) = do
  c ← reverse_one rows previous
  cs ← reverse_all rows rest
  ok (c ∷ cs)

reverse_pair : List Registration → Change → Change → Result (List Change)
unfolding replays_as current_rows reverse_all release_source empty_source legacy_source
    replayed_command move_type
reverse_pair records source target = do
  fail_if
      ((not (release_source source.after)
          && not (empty_source source.after)
          && not (legacy_source source.after target.registration_id))
        || not target.before.reserve
        || source.registration_id == target.registration_id)
      correction_review_required
  fail_if
      (not (
        replays_as (apply (source.before ∷ target.before ∷ []) (replayed_command source target))
          (source ∷ target ∷ [])))
      correction_review_required
  rows ← current_rows [] records
  reverse_all rows (source ∷ target ∷ [])

unfoldable pub reverse_move : List Registration → List Change → String → Result (List Change)
unfolding reverse_pair
reverse_move records (source ∷ target ∷ []) reason = do
  fail_if (not (valid_reason reason)) correction_review_required
  reverse_pair records source target
reverse_move records original reason = err correction_review_required
