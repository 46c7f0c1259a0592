-- ===== src/Service/Decision/Replay.antt =====
-- Proofs on `packetMergeDecision` (internal/service/packet_issuance.go) where the rows are images of the
-- operation.
use chrono_desk.Packet.ParseOperation.Derived.{parse_operation_json-IsDerived}
use chrono_desk.Packet.Json.{Value}
use chrono_desk.Service.ThreeWay.Images.{
  changed_equal-after, compatible-after, compatible-before, effect_self,
}
use chrono_desk.Packet.ParseOperation.{before_rows, change_ids, parse_operation_json}
use chrono_desk.Packet.Operation.{Operation}
use chrono_desk.Service.Decision.{
  derived, derive, decide, optional_string, packet_value, person_value, StoredOperation,
  actual_change, all_effects, all_equivalent, applied, check_compatible, equivalent, find_change,
  packet_changed_equal, packet_compatible, packet_effect_matches, packet_merge_decision,
}
use chrono_desk.Prelude.Classes.{string_eq, ◌==◌, Distinct, eq_refl}
use chrono_desk.Packet.Apply.{apply}
use chrono_desk.Prelude.{
  List, Option, String, [], none, refl, some, true, ◌∷◌, ◌≡◌, and_true, All, All-map, any, false,
  if◌then◌else◌, or_parts, ◌≢◌,
}
use chrono_desk.Packet.Model.{Registration, Change, Person, Command, CommandType, correct_move, ok}
use chrono_desk.Service.ThreeWay.Reflexive.{distinct_keys}

abbrev pub after_rows : List Change → List Registration
after_rows [] = []
after_rows (c ∷ cs) = c.after ∷ after_rows cs

pub distinct_keys-person_value : (p : Option Person) → distinct_keys (person_value p) ≡ true
unfolding distinct_keys
distinct_keys-person_value none = refl
distinct_keys-person_value (some p) = refl

pub distinct_keys-optional_string : (s : Option String) → distinct_keys (optional_string s) ≡ true
unfolding distinct_keys
distinct_keys-optional_string none = refl
distinct_keys-optional_string (some s) = refl

pub distinct_keys-packet_value : (r : Registration) → distinct_keys (packet_value r) ≡ true
unfolding distinct_keys packet_value
distinct_keys-packet_value r =
    and_true _ _ (distinct_keys-person_value r.person)
      (and_true _ true (distinct_keys-optional_string r.transferred_to) refl)

check_compatible-after : (cs : List Change) → check_compatible cs (after_rows cs) ≡ none
unfolding check_compatible packet_compatible
check_compatible-after [] = refl
check_compatible-after (c ∷ cs) =
    rw
      (compatible-after (packet_value c.before) (packet_value c.after)
        (distinct_keys-packet_value c.after))
      (check_compatible-after cs)

all_equivalent-after : (cs : List Change) → all_equivalent cs (after_rows cs) ≡ true
unfolding all_equivalent packet_changed_equal
all_equivalent-after [] = refl
all_equivalent-after (c ∷ cs) =
    and_true _ _
      (changed_equal-after (packet_value c.before) (packet_value c.after)
        (distinct_keys-packet_value c.after))
      (all_equivalent-after cs)

-- An operation whose images after are the current rows is equivalent: what was applied is not applied
-- again.
pub packet_merge_decision-after_rows :
    (find : String → Option StoredOperation) (operation : Operation)
    → packet_merge_decision find (after_rows operation.changes) operation ≡ equivalent
unfolding packet_merge_decision
packet_merge_decision-after_rows find operation = rw (
  check_compatible-after operation.changes,
  packet_merge_decision,
  all_equivalent-after operation.changes,
)

check_compatible-before : (cs : List Change) → check_compatible cs (before_rows cs) ≡ none
unfolding check_compatible packet_compatible
check_compatible-before [] = refl
check_compatible-before (c ∷ cs) =
    rw
      (compatible-before (packet_value c.before) (packet_value c.after)
        (distinct_keys-packet_value c.before))
      (check_compatible-before cs)

pub derive-apply :
    (find : String → Option StoredOperation) (type : CommandType) (current : List Registration)
    (command : Command)
    → (type ≢ correct_move)
    → derive find type current command ≡ derived (apply current command)
unfolding derive
derive-apply find correct_move current command n = elim (n refl) [ ]
derive-apply find _ current command n = refl

find_change-none :
    (id : String) (cs : List Change)
    → any (λ x. x == id) (change_ids cs) ≡ false
    → find_change id cs ≡ none
unfolding find_change
find_change-none id [] h = refl
find_change-none id (c ∷ cs) h =
    let (a, b) = or_parts (c.registration_id == id) (any (λ x. x == id) (change_ids cs)) h in
    rw (find_change-none id cs b, find_change, a)

find_change-found :
    (cs : List Change)
    → Distinct (change_ids cs)
    → All (λ c. find_change c.registration_id cs ≡ some c) cs
unfolding find_change
find_change-found [] h = tt
find_change-found (c ∷ cs) h = (
  rw (find_change-none c.registration_id cs h.0, find_change, eq_refl c.registration_id),
  All-map (λ d. find_change d.registration_id cs ≡ some d)
      (λ d. find_change d.registration_id (c ∷ cs) ≡ some d) (λ d e. rw (e, find_change)) cs
      (find_change-found cs h.1),
)

actual_change-found :
    (current : List Registration) (changes : List Change) (c : Change)
    → find_change c.registration_id changes ≡ some c
    → actual_change current changes c.registration_id ≡ c
unfolding actual_change
actual_change-found current changes c e = rw (e, actual_change)

all_effects_self :
    (current : List Registration) (changes cs : List Change)
    → All (λ c. find_change c.registration_id changes ≡ some c) cs
    → all_effects current changes cs ≡ true
unfolding all_effects packet_effect_matches
all_effects_self current changes [] h = refl
all_effects_self current changes (c ∷ cs) h =
    and_true _ _
      (rw (actual_change-found current changes c h.0) (
        effect_self (packet_value c.before) (packet_value c.after)
          (distinct_keys-packet_value c.before) (distinct_keys-packet_value c.after)))
      (all_effects_self current changes cs h.1)

packet_merge_decision-derived :
    (find : String → Option StoredOperation) (operation : Operation)
    → operation.command.type ≢ correct_move
    → apply (before_rows operation.changes) operation.command ≡ ok operation.changes
    → Distinct (change_ids operation.changes)
    → packet_merge_decision find (before_rows operation.changes) operation ≡ (
        if all_equivalent operation.changes (before_rows operation.changes)
        then equivalent
        else applied operation.changes)
unfolding packet_merge_decision decide
packet_merge_decision-derived find operation n e d = rw (
  check_compatible-before operation.changes,
  packet_merge_decision,
  derive-apply find operation.command.type (before_rows operation.changes) operation.command n,
  decide,
  e,
  all_effects_self (before_rows operation.changes) operation.changes operation.changes
      (find_change-found operation.changes d),
)

-- An accepted upload, other than a correction, that meets the rows it was made on is applied with
-- exactly the changes it announces, unless the rows have them already.
pub packet_merge_decision-before_rows :
    (find : String → Option StoredOperation) (decoded : Option Value) {operation : Operation}
    → parse_operation_json decoded false ≡ ok operation
    → operation.command.type ≢ correct_move
    → packet_merge_decision find (before_rows operation.changes) operation ≡ (
        if all_equivalent operation.changes (before_rows operation.changes)
        then equivalent
        else applied operation.changes)
packet_merge_decision-before_rows find decoded {operation} h n =
    let (e, d) = parse_operation_json-IsDerived decoded h n in
    packet_merge_decision-derived find operation n e d
