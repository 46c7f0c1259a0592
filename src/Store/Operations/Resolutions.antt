-- ===== src/Store/Operations/Resolutions.antt =====
-- The resolutions of conflicts in internal/infrastructure/sqlite/packet_issuance_store.go.
use chrono_desk.Store.Operations.{find_operation}
use chrono_desk.Prelude.{
  Bool, List, Option, String, [], any, if◌then◌else◌, is_some, none, not, some, ◌&&◌, ◌++◌, ◌||◌,
  ◌∷◌,
}
use chrono_desk.Store.Tables.{ResolutionRow, Tables}
use chrono_desk.Store.Db.{◌>>=◌, ◌>>◌, Db, constraint, execute, query, raise_if}
use chrono_desk.Prelude.Classes.{string_eq, nat_eq, bool_eq, list_eq, option_eq, ◌==◌}

unfoldable pub find_resolution : String → List ResolutionRow → Option ResolutionRow
find_resolution input [] = none
find_resolution input (r ∷ rs) =
    if r.input_operation_id == input then some r else find_resolution input rs

unfoldable pub find_packet_resolution_by_input : String → Db Tables (Option ResolutionRow)
unfolding find_resolution
find_packet_resolution_by_input input = query λ s. find_resolution input s.resolutions

same_resolution : ResolutionRow → ResolutionRow → Bool
same_resolution r x =
    x.resolution_operation_id == r.resolution_operation_id
    || x.input_operation_id == r.input_operation_id

-- The keys of packet_issuance_resolutions, and its references.
unfoldable pub save_packet_resolution : ResolutionRow → Db Tables (Unit {0})
unfolding same_resolution find_operation
save_packet_resolution r = do
  taken ← query (λ s. any (same_resolution r) s.resolutions)
  known ← query (λ s.
      any (λ e. e.id == r.event_id) s.events
      && is_some (find_operation r.resolution_operation_id s.operations)
      && is_some (find_operation r.input_operation_id s.operations))
  raise_if (taken || not known) constraint
  execute λ s. record s { resolutions = s.resolutions ++ (r ∷ []) }
