-- ===== src/Server/Snapshots/Handler.antt =====
-- `ListClusterSnapshots`
pub mod Laws
pub mod Determined
use cluster_monitor.Prelude.{ℕ, String, Option, none, some, List, [], ◌∷◌, length}
use cluster_monitor.Go.Result.{Result, ok, err, status, unauthenticated, not_found, internal}
use cluster_monitor.Go.Time.{Time}
use cluster_monitor.Go.Exec.{Exec, lift, or_status, ◌>>=◌}
use cluster_monitor.Api.{ClusterSnapshot, ListClusterSnapshotsRequest, ListClusterSnapshotsResponse}
use cluster_monitor.Store.Rows.{Bytes, ClusterSnapshotRow}
use cluster_monitor.Store.Database.{Db}
use cluster_monitor.Store.{
  time_now, list_cluster_snapshots_by_tenant_id, list_cluster_snapshot_histories,
}
use cluster_monitor.Server.Auth.{UserInfo}
use cluster_monitor.Server.Window.{get_start_end_time, default_duration}
use cluster_monitor.Server.Gather.{gather}
use cluster_monitor.Server.Snapshots.Answer.{answer}

module _ (db : Db) (unmarshal : Bytes → Result ClusterSnapshot)
    (req : ListClusterSnapshotsRequest) where
  -- behind the query for the clusters of the tenant
  unfoldable pub list_for : List ClusterSnapshotRow → Exec db.State ListClusterSnapshotsResponse
  list_for [] = lift (err (status not_found))
  list_for (c ∷ cs) = do
    now ← time_now db
    window ← lift (get_start_end_time req.filter now default_duration)
    found ← gather (λ id. list_cluster_snapshot_histories db id window.0 window.1) (c ∷ cs)
    lift (answer unmarshal req window found)

  -- `ListClusterSnapshots`; `caller` is what `auth.ExtractUserInfoFromContext` finds
  unfoldable pub list_cluster_snapshots :
      Option UserInfo → Exec db.State ListClusterSnapshotsResponse
  unfolding list_for
  list_cluster_snapshots none = lift (err (status unauthenticated))
  list_cluster_snapshots (some caller) = do
    cs ← or_status internal (list_cluster_snapshots_by_tenant_id db caller.tenant_id)
    list_for cs
