-- ===== src/Packet/ParseOperation.antt =====
-- `parseOperation`, `ParseOperation`, `ParseTrustedOperation` and `ParseBatch` of
-- internal/packetissuance/validation.go, on the value that `decodeValue` returns; `none` stands for
-- its error.
pub mod Derived
use chrono_desk.Text.Decimal.{pos, negsuc, ℤ}
use chrono_desk.Packet.Canonical.{write_canonical}
use chrono_desk.Packet.ParseCommand.{parse_command}
use chrono_desk.Text.Chars.{identifier_pattern, uuid_pattern, valid_text}
use chrono_desk.Packet.Fields.{fields_agree}
use chrono_desk.Packet.Operation.{Base, Operation, parse_base, parse_change}
use chrono_desk.Prelude.{
  Bool, List, Option, String, [], all, any, false, if◌then◌else◌, length, not, some, true, within,
  ℕ, ◌&&◌, ◌++◌, ◌||◌, ◌∷◌, ◌≡◌,
}
use chrono_desk.Prelude.Classes.{string_eq, nat_eq, list_eq, ◌==◌}
use chrono_desk.Packet.Json.{
  get, Fields, Value, as_array, as_object, exact_keys, integer, item_count, items_list,
  optional_text, safe_integer, string_value,
}
use chrono_desk.Packet.Model.{
  change_eq, ok, correct_move, resolve_conflict, Change, Code, Command, CommandType, Registration,
  Result, err, fail_if, invalid_operation, invalid_operation_batch, invalid_operation_changes,
  invalid_operation_command, or_fail, ◌>>=◌, ◌>>◌,
}
use chrono_desk.Packet.Apply.{apply}

-- `n == k` for an int64 `n`.
unfoldable pub is_int : ℤ → ℕ → Bool
is_int (pos n) k = n == k
is_int (negsuc n) k = false

abbrev operation_keys : List String
operation_keys =
    "schemaVersion" ∷ "operationId" ∷ "scopeId" ∷ "baselineId" ∷ "originInstanceId"
    ∷ "originSequence" ∷ "createdAtMs" ∷ "claimedActor" ∷ "command" ∷ "bases" ∷ "changes" ∷ []

unfoldable pub has_operation_keys : Fields → Bool
unfolding exact_keys
has_operation_keys obj =
    exact_keys obj operation_keys || exact_keys obj (operation_keys ++ ("note" ∷ []))

-- A parser's error is reported under another code.
abbrev pub recode {ℓ} : {A : Type ℓ} → Code → Result A → Result A
recode e (ok a) = ok a
recode e (err _) = err e

pub recode-eq-ok {ℓ} : {A : Type ℓ} (e : Code) (r : Result A) {a : A} → recode e r ≡ ok a → r ≡ ok a
recode-eq-ok e (ok a) h = h
recode-eq-ok e (err c) h = cc

-- The loop over `changes`, with the ids that it has seen.
unfoldable pub parse_pairs :
    CommandType → Bool → List String → List Value → List Value → Result (List (Base × Change))
unfolding parse_base parse_change fields_agree
parse_pairs type resolution seen (b ∷ bs) (c ∷ cs) = do
  base ← recode invalid_operation_changes (parse_base b)
  change ← recode invalid_operation_changes (parse_change c)
  fail_if
      (not (base.registration_id == change.registration_id)
        || any (λ id. id == change.registration_id) seen)
      invalid_operation_changes
  fail_if (not (fields_agree type resolution change)) invalid_operation_changes
  rest ← parse_pairs type resolution (change.registration_id ∷ seen) bs cs
  ok ((base, change) ∷ rest)
parse_pairs type resolution seen _ _ = ok []

unfoldable pub bases_of : List (Base × Change) → List Base
bases_of [] = []
bases_of ((b, c) ∷ rest) = b ∷ bases_of rest

unfoldable pub changes_of_pairs : List (Base × Change) → List Change
changes_of_pairs [] = []
changes_of_pairs ((b, c) ∷ rest) = c ∷ changes_of_pairs rest

abbrev pub before_rows : List Change → List Registration
before_rows [] = []
before_rows (c ∷ cs) = c.before ∷ before_rows cs

abbrev pub change_ids : List Change → List String
change_ids [] = []
change_ids (c ∷ cs) = c.registration_id ∷ change_ids cs

unfoldable pub one_event : List Registration → Bool
one_event [] = true
one_event (row ∷ rest) = all (λ r. r.event_id == row.event_id) rest

-- `base.Heads` is the single input.
resolves_input : List String → String → Base → Bool
resolves_input (input ∷ []) id base = base.heads == input ∷ []
resolves_input _ id base = false

distinct_input : List String → String → Bool
distinct_input (input ∷ rest) id = not (input == id)
distinct_input [] id = false

unfoldable pub resolution_agrees : Operation → Bool
unfolding resolves_input distinct_input
resolution_agrees operation =
    is_resolve operation.command.type
    && distinct_input operation.command.inputs operation.operation_id
    && all (resolves_input operation.command.inputs operation.operation_id) operation.bases
  where
    is_resolve : CommandType → Bool
    is_resolve resolve_conflict = true
    is_resolve _ = false

-- The changes must be those that `Apply` derives from the images before.
unfoldable pub matches_apply : List Change → Command → Result (Unit {0})
unfolding apply
matches_apply changes command = elim (apply (before_rows changes) command) [
  | err e ↦ err invalid_operation_command
  | ok expected ↦ fail_if (not (expected == changes)) invalid_operation_changes
]

unfoldable pub check_effect : CommandType → Operation → Result (Unit {0})
unfolding matches_apply
check_effect correct_move operation =
    fail_if (not (length operation.changes == 2)) invalid_operation_changes
check_effect _ operation = matches_apply operation.changes operation.command

unfoldable pub check_changes : Operation → Result (Unit {0})
unfolding resolution_agrees check_effect is_int
check_changes operation =
    if is_int operation.schema_version 2
    then fail_if (not (resolution_agrees operation)) invalid_operation_changes
    else check_effect operation.command.type operation

-- The operation, if its changes are those of its command.
unfoldable pub checked : Operation → Result Operation
unfolding check_changes
checked operation = do check_changes operation; ok operation

-- The fields of the operation that is returned.
unfoldable pub operation_of :
    Fields → List ℕ → ℕ → ℕ → Command → List (Base × Change) → Option String → Operation
unfolding bases_of changes_of_pairs integer string_value get
operation_of obj canonical sequence created command pairs note = record {
  schema_version = integer (get "schemaVersion" obj);
  operation_id = string_value (get "operationId" obj);
  scope_id = string_value (get "scopeId" obj);
  baseline_id = string_value (get "baselineId" obj);
  origin_instance_id = string_value (get "originInstanceId" obj);
  origin_sequence = sequence;
  created_at_ms = created;
  claimed_actor = string_value (get "claimedActor" obj);
  command = command;
  bases = bases_of pairs;
  changes = changes_of_pairs pairs;
  note = note;
  canonical = canonical;
}

unfoldable pub parse_operation : Value → List ℕ → Bool → Result Operation
unfolding has_operation_keys safe_integer optional_text parse_command parse_pairs bases_of
    changes_of_pairs one_event checked operation_of
parse_operation value canonical allow_resolution = do
  obj ← or_fail (as_object value) invalid_operation
  fail_if (not (has_operation_keys obj)) invalid_operation
  let schema = integer (get "schemaVersion" obj)
  let resolution = allow_resolution && is_int schema 2
  fail_if
      ((not (is_int schema 1) && not resolution)
        || not (uuid_pattern (string_value (get "operationId" obj)))
        || not (identifier_pattern (string_value (get "scopeId" obj)))
        || not (identifier_pattern (string_value (get "baselineId" obj)))
        || not (uuid_pattern (string_value (get "originInstanceId" obj)))
        || not (valid_text (string_value (get "claimedActor" obj)) 160))
      invalid_operation
  sequence ← or_fail (safe_integer (get "originSequence" obj) true) invalid_operation
  created ← or_fail (safe_integer (get "createdAtMs" obj) false) invalid_operation
  note ← or_fail (optional_text obj "note" 500) invalid_operation
  command ← parse_command (get "command" obj) resolution
  bases ← or_fail (as_array (get "bases" obj)) invalid_operation
  changes ← or_fail (as_array (get "changes" obj)) invalid_operation
  fail_if
      ((not (item_count changes == 1) && not (item_count changes == 2))
        || not (item_count bases == item_count changes))
      invalid_operation
  pairs ← parse_pairs command.type (is_int schema 2) [] (items_list bases) (items_list changes)
  fail_if (not (one_event (before_rows (changes_of_pairs pairs)))) invalid_operation_changes
  checked (operation_of obj canonical sequence created command pairs note)

-- `parseOperationJSON`
unfoldable pub parse_operation_json : Option Value → Bool → Result Operation
unfolding parse_operation write_canonical
parse_operation_json decoded allow_resolution = do
  value ← or_fail decoded invalid_operation
  canonical ← or_fail (write_canonical value) invalid_operation
  parse_operation value canonical allow_resolution

parse_items : List Value → Result (List Operation)
unfolding parse_operation_json
parse_items [] = ok []
parse_items (item ∷ rest) = do
  operation ← parse_operation_json (some item) false
  operations ← parse_items rest
  ok (operation ∷ operations)

unfoldable pub parse_batch : Option Value → Result (List Operation)
unfolding parse_items exact_keys is_int integer get
parse_batch decoded = do
  root ← or_fail decoded invalid_operation_batch
  obj ← or_fail (as_object root) invalid_operation_batch
  fail_if
      (not (exact_keys obj ("schemaVersion" ∷ "operations" ∷ []))
        || not (is_int (integer (get "schemaVersion" obj)) 1))
      invalid_operation_batch
  items ← or_fail (as_array (get "operations" obj)) invalid_operation_batch
  fail_if (not (within 1 64 (item_count items))) invalid_operation_batch
  parse_items (items_list items)
