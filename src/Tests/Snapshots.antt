-- ===== src/Tests/Snapshots.antt =====
-- Tests of `calculateSnapshotValues`.
use cluster_monitor.Prelude.{◌≡◌, refl, none, length, List, [], ◌∷◌, arith}
use cluster_monitor.Prelude.Int.{pos, int32, wrap, quot, ◌+ℤ◌}
use cluster_monitor.Prelude.Order.{string_ord}
use cluster_monitor.Go.Result.{ok, ◌>>=◌}
use cluster_monitor.Api.{cluster, product, unspecified, ListClusterSnapshotsRequest}
use cluster_monitor.Store.Rows.{ClusterSnapshotHistory}
use cluster_monitor.Server.Snapshots.{
  get_grouping_value, calculate_snapshot_values, get_all_grouping_values, averages, add_node,
  count_history, respond,
}
use cluster_monitor.Server.Tally.{tally}
use cluster_monitor.Go.Map.{lookup, assign}
use cluster_monitor.Server.Buckets.Laws.{instant, hours_from}
use cluster_monitor.Server.Snapshots.Answer.{answer}
use cluster_monitor.Server.Snapshots.Hours.{in_hours, answer-eq-in_hours}
use cluster_monitor.Tests.Samples.{unmarshal, names, history}

abbrev two_histories : List ClusterSnapshotHistory
two_histories = history "c1" 2 10 ∷ history "c1" 4 20 ∷ []

abbrev request : ListClusterSnapshotsRequest
request = record { filter = none; group_by = cluster }

answer-eq-in_hours_example :
    answer unmarshal request (instant 63839664000, instant 63839671200) (two_histories, names) ≡ (do
      gvals ← get_all_grouping_values unmarshal cluster names two_histories
      dps ← in_hours unmarshal request names two_histories (hours_from 2 63839664000) gvals
      ok (record { datapoints = dps; cluster_count = int32 (pos (length names)) }))
answer-eq-in_hours_example =
    answer-eq-in_hours unmarshal request names two_histories 2 63839664000 (λ e. ground arith)
      (omega arith) (omega arith)

-- One history of each of two clusters, with 2 and 4 nodes of the product: the sums of both clusters
-- are divided by the number of the histories of both.
product_run :
    calculate_snapshot_values unmarshal product names
      ("A100" ∷ [])
      (history "c1" 2 10 ∷ history "c2" 4 20 ∷ [])
    ≡ ok (
        record {
          grouping_value = "A100";
          node_count = pos 3;
          gpu_capacity = pos 24;
          memory_capacity_gb = pos 12;
          gpu_occupancy = pos 3;
          pod_count = pos 6;
        }
        ∷ [])
unfolding calculate_snapshot_values lookup assign averages add_node count_history respond wrap quot
    tally get_grouping_value ◌+ℤ◌
product_run = refl

-- Without grouping, each cluster is averaged on its own.
unspecified_run :
    calculate_snapshot_values unmarshal unspecified names []
      (history "c1" 2 10 ∷ history "c2" 4 20 ∷ [])
    ≡ ok (
        record {
          grouping_value = "";
          node_count = pos 6;
          gpu_capacity = pos 48;
          memory_capacity_gb = pos 24;
          gpu_occupancy = pos 6;
          pod_count = pos 12;
        }
        ∷ [])
unfolding calculate_snapshot_values lookup assign averages add_node count_history respond wrap quot
    tally get_grouping_value ◌+ℤ◌
unspecified_run = refl
