-- ===== src/Server/Usages/Answer.antt =====
-- `ListGpuUsages`, from the histories that it read to the response
use cluster_monitor.Prelude.{String, List, []}
use cluster_monitor.Go.Result.{Result, ok, ◌>>=◌}
use cluster_monitor.Go.Time.{Time}
use cluster_monitor.Go.Map.{GoMap}
use cluster_monitor.Go.Float.{Float32}
use cluster_monitor.Api.{GpuTelemetry, ListGpuUsagesResponse}
use cluster_monitor.Store.Rows.{Bytes, GpuTelemetryHistory}
use cluster_monitor.Server.Buckets.{fill, datapoints}
use cluster_monitor.Server.Usages.{get_all_cluster_nodes, calculate_gpu_usage_values}

module _ (float : Float32) (unmarshal : Bytes → Result (GpuTelemetry float.Carrier)) where
  unfoldable pub answer :
      Time × Time
      → List GpuTelemetryHistory × GoMap String String
      → Result (ListGpuUsagesResponse float.Carrier)
  answer (start_time, end_time) (hs, names) = do
    all_cluster_nodes ← get_all_cluster_nodes float unmarshal names hs
    let buckets = fill (λ h. h.history_created_at) [] hs
    dps ←
        datapoints (calculate_gpu_usage_values float unmarshal names all_cluster_nodes) buckets
          start_time end_time
    ok (record { datapoints = dps })
