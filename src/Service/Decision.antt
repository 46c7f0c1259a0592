-- ===== src/Service/Decision.antt =====
-- `packetMergeDecision` of internal/service/packet_issuance.go: what the receiver makes of an
-- operation of a tablet on the current rows. `FindPacketOperation` of internal/infrastructure/sqlite is
-- the parameter `find`; `none` stands for an operation that is not stored and for an error. Every `Code`
-- has the form that `packetCode` asks for.
pub mod Replay
pub mod Shapes
pub mod Effects
pub mod RowEffects
pub mod Applied
use chrono_desk.Prelude.{
  Bool, List, Option, String, [], false, if◌then◌else◌, none, not, some, true, ◌&&◌, ◌∷◌,
}
use chrono_desk.Prelude.Classes.{string_eq, ◌==◌}
use chrono_desk.Packet.Model.{
  Registration, Change, Code, ok, err, registered, dns, dnf, dsq, other_status, correct_move,
  Command, CommandType, Person, Result, Status, correction_review_required, timing_review_required,
}
use chrono_desk.Packet.Json.{Value, field, end, null, string, boolean, object}
use chrono_desk.Packet.Operation.{Operation}
use chrono_desk.Packet.ParseOperation.{parse_operation_json}
use chrono_desk.Packet.Apply.{apply}
use chrono_desk.Packet.Reverse.{reverse_move}
use chrono_desk.Service.ThreeWay.{recursive_effect, recursive_changed_equal, recursive_compatible}

-- The code of a conflict: an error of the transition, or one of the decision's own.
pub data Reason : Type 0 where
  refused : Code → Reason
  current_state_changed operation_effect_changed : Reason

-- The outcome, with its changes if it is applied. `index_panic` stands for `current[index]` out of
-- range.
pub data Decision : Type 0 where
  conflict : Reason → Decision
  equivalent waiting_dependency index_panic : Decision
  applied : List Change → Decision

pub record StoredOperation : Type 0 where
  pub outcome : String
  pub operation : Option Value

abbrev pub status_text : Status → String
status_text registered = "registered"
status_text dns = "dns"
status_text dnf = "dnf"
status_text dsq = "dsq"
status_text (other_status s) = s

abbrev pub optional_string : Option String → Value
optional_string none = null
optional_string (some s) = string s

abbrev pub person_value : Option Person → Value
person_value none = null
person_value (some p) = object (
    field "id" (string p.id) (
      field "firstName" (string p.first_name) (
        field "lastName" (string p.last_name) (
          field "birthDate" (string p.birth_date) (
            field "gender" (string p.gender)
              (field "team" (string p.team) (field "city" (string p.city) end)))))))

-- `packetValue` of a row: the JSON of the struct.
unfoldable pub packet_value : Registration → Value
packet_value r = object (
    field "id" (string r.id) (
      field "eventId" (string r.event_id) (
        field "raceId" (string r.race_id) (
          field "bib" (string r.bib) (
            field "epc" (string r.epc) (
              field "person" (person_value r.person) (
                field "reserve" (boolean r.reserve) (
                  field "issued" (boolean r.issued) (
                    field "status" (string (status_text r.status)) (
                      field "transferredTo" (optional_string r.transferred_to)
                        (field "hasTimingEvidence" (boolean r.has_timing_evidence) end)))))))))))

unfoldable pub packet_compatible : Registration → Registration → Registration → Bool
packet_compatible before after current =
    recursive_compatible (packet_value before) (packet_value after) (packet_value current)

unfoldable pub packet_changed_equal :
    Registration → Registration → Registration → Registration → Bool
packet_changed_equal before after left right =
    recursive_changed_equal (packet_value before) (packet_value after) (packet_value left)
      (packet_value right)

unfoldable pub packet_effect_matches :
    Registration → Registration → Registration → Registration → Bool
packet_effect_matches before after actual_before actual_after =
    recursive_effect (packet_value before) (packet_value after) (packet_value actual_before)
      (packet_value actual_after)

incompatible : Change → Registration → Reason
incompatible c row =
    if row.has_timing_evidence && not (c.before.has_timing_evidence)
    then refused timing_review_required
    else current_state_changed

-- The first loop: the decision that it returns, if it does.
unfoldable pub check_compatible : List Change → List Registration → Option Decision
unfolding packet_compatible incompatible
check_compatible [] rows = none
check_compatible (c ∷ cs) [] = some index_panic
check_compatible (c ∷ cs) (row ∷ rows) =
    let rest = check_compatible cs rows in
    if not (packet_compatible c.before c.after row)
    then some (conflict (incompatible c row))
    else rest

-- The second loop.
unfoldable pub all_equivalent : List Change → List Registration → Bool
unfolding packet_changed_equal
all_equivalent (c ∷ cs) (row ∷ rows) =
    packet_changed_equal c.before c.after row c.after && all_equivalent cs rows
all_equivalent _ _ = true

-- `Registration{}`
abbrev pub zero_registration : Registration
zero_registration = record {
  id = "";
  event_id = "";
  race_id = "";
  bib = "";
  epc = "";
  person = none;
  reserve = false;
  issued = false;
  status = other_status "";
  transferred_to = none;
  has_timing_evidence = false;
}

unfoldable pub current_registration : List Registration → String → Registration
current_registration [] id = zero_registration
current_registration (row ∷ rows) id = if row.id == id then row else current_registration rows id

-- `byID[id]`: the last of the changes with this id.
unfoldable pub find_change : String → List Change → Option Change
find_change id [] = none
find_change id (c ∷ cs) = elim (find_change id cs) [
  | none ↦ if c.registration_id == id then some c else none
  | some d ↦ some d
]

unfoldable pub actual_change : List Registration → List Change → String → Change
unfolding find_change current_registration
actual_change current derived id = elim (find_change id derived) [
  | none ↦ record {
    registration_id = id;
    before = current_registration current id;
    after = current_registration current id;
  }
  | some c ↦ c
]

-- The third loop.
unfoldable pub all_effects : List Registration → List Change → List Change → Bool
unfolding packet_effect_matches actual_change
all_effects current derived [] = true
all_effects current derived (c ∷ cs) =
    packet_effect_matches c.before c.after (actual_change current derived c.registration_id).before
      (actual_change current derived c.registration_id).after
    && all_effects current derived cs

-- The changes that the command derives from the current rows, or the decision without them.
pub data Derivation : Type 0 where
  derived : Result (List Change) → Derivation
  decided : Decision → Derivation

derive_correction : Option StoredOperation → List Registration → String → Derivation
unfolding parse_operation_json reverse_move
derive_correction none current reason = decided waiting_dependency
derive_correction (some stored) current reason =
    if not (stored.outcome == "applied") && not (stored.outcome == "equivalent")
    then decided waiting_dependency
    else elim (parse_operation_json stored.operation false) [
      | err e ↦ decided (conflict (refused correction_review_required))
      | ok original ↦ derived (reverse_move current original.changes reason)
    ]

unfoldable pub derive :
    (String → Option StoredOperation) → CommandType → List Registration → Command → Derivation
unfolding derive_correction apply
derive find correct_move current command =
    derive_correction (find command.operation_id) current command.reason
derive find _ current command = derived (apply current command)

unfoldable pub decide : List Registration → List Change → Derivation → Decision
unfolding all_effects
decide current expected (decided d) = d
decide current expected (derived (err e)) = conflict (refused e)
decide current expected (derived (ok changes)) =
    if not (all_effects current changes expected)
    then conflict operation_effect_changed
    else applied changes

unfoldable pub packet_merge_decision :
    (String → Option StoredOperation) → List Registration → Operation → Decision
unfolding check_compatible all_equivalent derive decide
packet_merge_decision find current operation = elim (check_compatible operation.changes current) [
  | some d ↦ d
  | none ↦
      if all_equivalent operation.changes current
      then equivalent
      else decide current operation.changes
          (derive find operation.command.type current operation.command)
]
