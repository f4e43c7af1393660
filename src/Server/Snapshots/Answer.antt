-- ===== src/Server/Snapshots/Answer.antt =====
-- `ListClusterSnapshots`, from the histories that it read to the response
use cluster_monitor.Prelude.{String, List, [], length}
use cluster_monitor.Prelude.Int.{pos, int32}
use cluster_monitor.Go.Result.{Result, ok, ◌>>=◌}
use cluster_monitor.Go.Time.{Time}
use cluster_monitor.Go.Map.{GoMap}
use cluster_monitor.Api.{ClusterSnapshot, ListClusterSnapshotsRequest, ListClusterSnapshotsResponse}
use cluster_monitor.Store.Rows.{Bytes, ClusterSnapshotHistory}
use cluster_monitor.Server.Buckets.{fill, datapoints}
use cluster_monitor.Server.Snapshots.{get_all_grouping_values, calculate_snapshot_values}

module _ (unmarshal : Bytes → Result ClusterSnapshot) where
  unfoldable pub answer :
      ListClusterSnapshotsRequest
      → Time × Time
      → List ClusterSnapshotHistory × GoMap String String
      → Result ListClusterSnapshotsResponse
  answer req (start_time, end_time) (hs, names) = do
    all_gvals ← get_all_grouping_values unmarshal req.group_by names hs
    let buckets = fill (λ h. h.history_created_at) [] hs
    dps ←
        datapoints (calculate_snapshot_values unmarshal req.group_by names all_gvals) buckets
          start_time end_time
    ok (record { datapoints = dps; cluster_count = int32 (pos (length names)) })
