-- ===== src/Service/Tests.antt =====
-- Runs of the merges and of the decision, and the theorems at them.
use chrono_desk.Packet.Model.{ok}
use chrono_desk.Service.Decision.Applied.{IsEffected, packet_merge_decision-applied}
use chrono_desk.Packet.Apply.{apply}
use chrono_desk.Prelude.{
  All, Bool, List, Option, String, [], is_some, none, not, refl, some, ℕ, ◌∷◌, ◌≡◌,
}
use chrono_desk.Prelude.Classes.{string_eq, ◌==◌}
use chrono_desk.Packet.Json.{object, field, end, string, Value}
use chrono_desk.Packet.MessageTests.{upload_runs, not_correction}
use chrono_desk.Packet.Rows.{change}
use chrono_desk.Service.Decision.{
  StoredOperation, packet_merge_decision, equivalent, applied, packet_changed_equal, packet_value,
}
use chrono_desk.Service.Decision.Replay.{
  packet_merge_decision-before_rows, packet_merge_decision-after_rows,
}
use chrono_desk.Service.ThreeWay.{
  recursive_changed_equal, deep_equal, same_keys, merge_packet_feed_value, recursive_compatible,
}
use chrono_desk.Service.ThreeWay.Agreement.{is_some-merge_packet_feed_value}
use chrono_desk.Packet.ParseOperation.{operation_of}
use chrono_desk.Service.Merge.{join, blocked, merge_finishes, clusters_of, Photo, MergedFinish}
use chrono_desk.Service.Merge.Crossing.{IsCrossing, clusters_of-IsCrossing}
use chrono_desk.Service.Merge.Partition.{
  count_all, count_all-clusters_of, total, total-merge_finishes,
}
use chrono_desk.Service.Merge.Order.{Descending, merge_finishes-Descending}
use chrono_desk.Samples.{upload_fields, uploaded, numbered_row, owned_row, photos}

abbrev nothing_stored : String → Option StoredOperation
nothing_stored id = none

applied_run :
    packet_merge_decision nothing_stored (owned_row ∷ []) uploaded
    ≡ applied (change owned_row numbered_row ∷ [])
unfolding packet_merge_decision packet_changed_equal packet_value recursive_changed_equal deep_equal
    same_keys operation_of
applied_run =
    packet_merge_decision-before_rows nothing_stored (some (object upload_fields)) upload_runs
      not_correction

packet_merge_decision-before_rows_example :
    packet_merge_decision nothing_stored (owned_row ∷ []) uploaded
    ≡ applied (change owned_row numbered_row ∷ [])
unfolding packet_merge_decision packet_changed_equal packet_value recursive_changed_equal deep_equal
    same_keys operation_of
packet_merge_decision-before_rows_example =
    packet_merge_decision-before_rows nothing_stored (some (object upload_fields)) upload_runs
      not_correction

packet_merge_decision-after_rows_example :
    packet_merge_decision nothing_stored (numbered_row ∷ []) uploaded ≡ equivalent
unfolding operation_of
packet_merge_decision-after_rows_example = packet_merge_decision-after_rows nothing_stored uploaded

abbrev pair : String → String → Value
pair a b = object (field "bib" (string a) (field "epc" (string b) end))

-- The site changes one field and the desk the other.
merge_runs :
    merge_packet_feed_value (pair "1" "x") (pair "2" "x") (pair "1" "y") ≡ some (pair "2" "y")
unfolding merge_packet_feed_value deep_equal same_keys
merge_runs = refl

is_some-merge_packet_feed_value_example :
    is_some (merge_packet_feed_value (pair "1" "x") (pair "2" "x") (pair "1" "y"))
    ≡ recursive_compatible (pair "1" "x") (pair "2" "x") (pair "1" "y")
is_some-merge_packet_feed_value_example =
    is_some-merge_packet_feed_value (pair "1" "x") (pair "2" "x") (pair "1" "y")

abbrev counts : List MergedFinish → List ℕ
counts [] = []
counts (f ∷ fs) = f.merged_count ∷ counts fs

merge_finishes_runs : counts (merge_finishes photos 0) ≡ 1 ∷ 2 ∷ []
unfolding merge_finishes blocked join
merge_finishes_runs = refl

clusters_of-IsCrossing_example : All (IsCrossing 1200) (clusters_of 0 photos)
clusters_of-IsCrossing_example = clusters_of-IsCrossing 0 photos

abbrev numbered : Photo → Bool
numbered p = not (p.bib == "")

count_all-clusters_of_example : count_all numbered (clusters_of 0 photos) ≡ 2
count_all-clusters_of_example = count_all-clusters_of numbered 0 photos

total-merge_finishes_example : total (merge_finishes photos 0) ≡ 3
total-merge_finishes_example = total-merge_finishes photos 0

merge_finishes-Descending_example : Descending (merge_finishes photos 0)
merge_finishes-Descending_example = merge_finishes-Descending photos 0

packet_merge_decision-applied_example :
    (apply (owned_row ∷ []) uploaded.command ≡ ok (change owned_row numbered_row ∷ []))
    × All (IsEffected (owned_row ∷ []) (change owned_row numbered_row ∷ [])) uploaded.changes
unfolding operation_of
packet_merge_decision-applied_example =
    packet_merge_decision-applied nothing_stored (owned_row ∷ []) uploaded not_correction
      applied_run
