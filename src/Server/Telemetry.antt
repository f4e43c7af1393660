-- ===== src/Server/Telemetry.antt =====
-- server/internal/server/cluster_telemetry.go: the worker service stores what the agents send.
pub mod Adds
pub mod Laws
pub mod Failed
pub mod Partial
pub mod Success
use cluster_monitor.Prelude.{Bool, Option, List, [], ◌∷◌}
use cluster_monitor.Go.Result.{Result, ok, err, status, internal, invalid_argument}
use cluster_monitor.Go.Exec.{Exec, lift, or_status, ◌>>=◌, ◌>>◌}
use cluster_monitor.Api.{
  ClusterSnapshot, GpuTelemetry, Payload, cluster_snapshot, gpu_telemetry, unset,
  SendClusterTelemetryRequest,
}
use cluster_monitor.Store.Database.{Db}
use cluster_monitor.Store.{
  time_now, create_or_update_cluster_snapshot, create_cluster_snapshot_history,
  create_gpu_telemetry_history,
}
use cluster_monitor.Server.Auth.{ClusterInfo, extract_cluster_info}
use cluster_monitor.Server.Codec.{Codec}

module _ (db : Db) {F : Type 0} (codec : Codec F) where
  -- `processClusterSnapshot`
  unfoldable pub process_cluster_snapshot : ClusterInfo → ClusterSnapshot → Exec db.State (Unit {0})
  process_cluster_snapshot info cs_proto = do
    create_or_update_cluster_snapshot db (record {
      id = 0;
      cluster_id = info.cluster_id;
      name = info.cluster_name;
      tenant_id = info.tenant_id;
    })
    msg ← lift (codec.marshal_snapshot cs_proto)
    now ← time_now db
    create_cluster_snapshot_history db
        (record { id = 0; cluster_id = info.cluster_id; message = msg; history_created_at = now })

  -- `processGPUTelemetry`
  unfoldable pub process_gpu_telemetry : ClusterInfo → GpuTelemetry F → Exec db.State (Unit {0})
  process_gpu_telemetry info gt_proto = do
    msg ← lift (codec.marshal_telemetry gt_proto)
    now ← time_now db
    create_gpu_telemetry_history db
        (record { id = 0; cluster_id = info.cluster_id; message = msg; history_created_at = now })

  -- the `switch` on the kind of a payload
  unfoldable pub process : ClusterInfo → Payload F → Exec db.State (Unit {0})
  unfolding process_cluster_snapshot process_gpu_telemetry
  process info (cluster_snapshot m) = or_status internal (process_cluster_snapshot info m)
  process info (gpu_telemetry m) = or_status internal (process_gpu_telemetry info m)
  process info unset = lift (err (status invalid_argument))

  -- `for _, payload := range req.Payloads`
  unfoldable pub process_all : ClusterInfo → List (Payload F) → Exec db.State (Unit {0})
  unfolding process
  process_all info [] = lift (ok tt)
  process_all info (payload ∷ payloads) = do process info payload; process_all info payloads

  -- behind the test for an empty request
  unfoldable pub accept : ClusterInfo → List (Payload F) → Exec db.State (Unit {0})
  unfolding process_all
  accept info [] = lift (err (status invalid_argument))
  accept info (payload ∷ payloads) = process_all info (payload ∷ payloads)

  -- `SendClusterTelemetry`; the response has no field. `extracted` is what
  -- `auth.ExtractClusterInfoFromContext` finds.
  unfoldable pub send_cluster_telemetry :
      Bool → Option ClusterInfo → SendClusterTelemetryRequest F → Exec db.State (Unit {0})
  unfolding accept
  send_cluster_telemetry enable_auth extracted req = do
    info ← lift (extract_cluster_info enable_auth extracted)
    accept info req.payloads
