-- ===== src/Server/Usages/Handler.antt =====
-- `ListGpuUsages`
pub mod Laws
use cluster_monitor.Prelude.{Option, none, some, List, [], ◌∷◌}
use cluster_monitor.Go.Result.{Result, ok, err, status, unauthenticated, not_found, internal}
use cluster_monitor.Go.Exec.{Exec, lift, or_status, ◌>>=◌}
use cluster_monitor.Go.Float.{Float32}
use cluster_monitor.Api.{GpuTelemetry, ListGpuUsagesRequest, ListGpuUsagesResponse}
use cluster_monitor.Store.Rows.{Bytes, ClusterSnapshotRow}
use cluster_monitor.Store.Database.{Db}
use cluster_monitor.Store.{
  time_now, list_cluster_snapshots_by_tenant_id, list_gpu_telemetry_histories,
}
use cluster_monitor.Server.Auth.{UserInfo}
use cluster_monitor.Server.Window.{get_start_end_time, default_duration}
use cluster_monitor.Server.Gather.{gather}
use cluster_monitor.Server.Usages.Answer.{answer}

module _ (db : Db) (float : Float32) (unmarshal : Bytes → Result (GpuTelemetry float.Carrier))
    (req : ListGpuUsagesRequest) where
  -- behind the query for the clusters of the tenant
  unfoldable pub list_usages_for :
      List ClusterSnapshotRow → Exec db.State (ListGpuUsagesResponse float.Carrier)
  list_usages_for [] = lift (err (status not_found))
  list_usages_for (c ∷ cs) = do
    now ← time_now db
    window ← lift (get_start_end_time req.filter now default_duration)
    found ← gather (λ id. list_gpu_telemetry_histories db id window.0 window.1) (c ∷ cs)
    lift (answer float unmarshal window found)

  -- `ListGpuUsages`; `caller` is what `auth.ExtractUserInfoFromContext` finds
  unfoldable pub list_gpu_usages :
      Option UserInfo → Exec db.State (ListGpuUsagesResponse float.Carrier)
  unfolding list_usages_for
  list_gpu_usages none = lift (err (status unauthenticated))
  list_gpu_usages (some caller) = do
    cs ← or_status internal (list_cluster_snapshots_by_tenant_id db caller.tenant_id)
    list_usages_for cs
