-- ===== src/Service/Receive/Batch.antt =====
-- The receiver: `Receive` and `receiveOne` of internal/service/packet_issuance.go.
use chrono_desk.Prelude.{
  Bool, List, Option, String, [], any, false, length, none, not, some, true, within, ◌++◌, ◌||◌,
  ◌∷◌,
}
use chrono_desk.Service.Receive.Returns.{receive_reserve_return}
use chrono_desk.Service.Receive.Numbers.{receive_number}
use chrono_desk.Service.Receive.General.{receive_general, receive_race_change}
use chrono_desk.Service.Receive.Persist.{
  External, PacketConnectionContext, find_scope, packet_receipt, persist,
}
use chrono_desk.Store.Publish.{operation_event}
use chrono_desk.Store.Operations.{
  Receipt, content_hash_of, find_packet_operation, find_packet_origin_sequence, other_owner,
  packet_dependencies_applied,
}
use chrono_desk.Store.Tables.{OperationRow, PacketIssuanceScope, Tables}
use chrono_desk.Store.Db.{◌>>=◌, ◌>>◌, Db, message, pure, query, raise_if, within_tx, branch}
use chrono_desk.Packet.Operation.{Operation, Base}
use chrono_desk.Packet.Model.{
  person_eq, assign_number, change_race, create_registration, return_to_reserve, CommandType,
}
use chrono_desk.Prelude.Classes.{string_eq, bool_eq, option_eq, ◌==◌}

-- The dispatch on the type of the command.
unfoldable pub receive_by_type :
    External → String → Operation → Bool → CommandType → Db Tables Receipt
unfolding receive_reserve_return receive_number receive_race_change receive_general
receive_by_type env event operation known return_to_reserve =
    receive_reserve_return env event operation known
receive_by_type env event operation known assign_number = receive_number env event operation known
receive_by_type env event operation known create_registration =
    receive_number env event operation known
receive_by_type env event operation known change_race =
    receive_race_change env event operation known
receive_by_type env event operation known _ = receive_general env event operation known

unfoldable pub receive_command : External → String → Operation → Bool → Db Tables Receipt
unfolding receive_by_type
receive_command env event operation known =
    receive_by_type env event operation known operation.command.type

unfoldable pub heads_of : List Base → List String
heads_of [] = []
heads_of (b ∷ bs) = b.heads ++ heads_of bs

-- The operation may not depend on itself; a head that occurs twice is asked for twice.
unfoldable pub receive_dependent : External → String → Operation → Bool → Db Tables Receipt
unfolding heads_of packet_dependencies_applied receive_command
receive_dependent env event operation known =
    branch (any (λ head. head == operation.operation_id) (heads_of operation.bases))
      (persist env operation known "rejected" "dependency_cycle" [])
      (do
        ready ← packet_dependencies_applied event (heads_of operation.bases)
        branch (not ready)
            (persist env operation known "waiting_dependency" "dependency_missing" [])
            (receive_command env event operation known))

unfoldable pub receive_new :
    External → PacketConnectionContext → Operation → Bool → Db Tables Receipt
unfolding find_packet_origin_sequence other_owner operation_event receive_dependent
receive_new env connection operation known = do
  owner ← find_packet_origin_sequence operation.origin_instance_id operation.origin_sequence
  raise_if (other_owner operation.operation_id owner) (message "operation_sequence_conflict")
  let event = operation_event operation.changes
  branch (not (event == connection.event_id))
      (persist env operation known "rejected" "event_mismatch" [])
      (receive_dependent env event operation known)

-- What is stored under the id of the operation is another operation.
unfoldable pub is_other : External → PacketConnectionContext → Operation → OperationRow → Bool
unfolding content_hash_of
is_other env connection operation r =
    not (r.content_hash == content_hash_of env.sha256 operation)
    || not (r.event_id == connection.event_id)
    || not (r.scope_id == operation.scope_id)
    || not (r.origin_instance_id == operation.origin_instance_id)

unfoldable pub receive_known :
    External → PacketConnectionContext → Operation → Option OperationRow → Db Tables Receipt
unfolding receive_new is_other packet_receipt content_hash_of
receive_known env connection operation none = receive_new env connection operation false
receive_known env connection operation (some r) = do
  raise_if (is_other env connection operation r) (message "operation_identity_conflict")
  branch (not (r.outcome == "waiting_dependency"))
      (pure (
        packet_receipt operation (content_hash_of env.sha256 operation) r.outcome r.outcome_code
          true))
      (receive_new env connection operation true)

unfoldable pub scope_differs : PacketConnectionContext → Option PacketIssuanceScope → Bool
scope_differs connection none = true
scope_differs connection (some scope) =
    scope.scope_id == "" || not (scope.scope_id == connection.scope_id)

-- The function in the transaction of `receiveOne`.
unfoldable pub receive_body : External → PacketConnectionContext → Operation → Db Tables Receipt
unfolding find_scope scope_differs find_packet_operation receive_known
receive_body env connection operation = do
  raise_if
      (not (operation.scope_id == connection.scope_id)
        || not (operation.origin_instance_id == connection.origin_instance_id))
      (message "operation_scope_conflict")
  scope ← query (λ s. find_scope connection.event_id s.scopes)
  raise_if (scope_differs connection scope) (message "operation_scope_conflict")
  existing ← find_packet_operation operation.operation_id
  receive_known env connection operation existing

unfoldable pub receive_one : External → PacketConnectionContext → Operation → Db Tables Receipt
unfolding receive_body
receive_one env connection operation = within_tx (receive_body env connection operation)

unfoldable pub receive_all :
    External → PacketConnectionContext → List Operation → Db Tables (List Receipt)
unfolding receive_one
receive_all env connection [] = pure []
receive_all env connection (o ∷ os) = do
  receipt ← receive_one env connection o
  receipts ← receive_all env connection os
  pure (receipt ∷ receipts)

unfoldable pub receive :
    External → PacketConnectionContext → List Operation → Db Tables (List Receipt)
unfolding receive_all
receive env connection operations = do
  raise_if (not (within 1 64 (length operations))) (message "invalid_operation_batch")
  receive_all env connection operations
