-- ===== src/Store.antt =====
-- server/internal/store: what the servers read and write, over any database.
pub mod Rows
pub mod Database
pub mod Registered
pub mod Upsert
pub mod ReadOnly
pub mod Invariant
pub mod Races
use cluster_monitor.Prelude.{String, Bool, true, false, ◌&&◌, not, List, if◌then◌else◌}
use cluster_monitor.Prelude.Order.{◌==◌, string_ord}
use cluster_monitor.Go.Result.{
  Result, ok, err, panics, out_of_rounds, Error, record_not_found, status, plain, codec_error,
  db_error,
}
use cluster_monitor.Go.Time.{Time, before}
use cluster_monitor.Go.Exec.{Exec, lift, ◌>>=◌}
use cluster_monitor.Store.Rows.{ClusterSnapshotRow, ClusterSnapshotHistory, GpuTelemetryHistory}
use cluster_monitor.Store.Database.{Db}

-- `history_created_at >= startTime`, `history_created_at < endTime`
abbrev pub within : Time → Time → Time → Bool
within start_time end_time t = not (before t start_time) && before t end_time

module _ (db : Db) where
  -- `time.Now()`
  abbrev pub time_now : Exec db.State Time
  time_now s = let (t, s') = db.now s in (ok t, s')

  -- what `CreateOrUpdateClusterSnapshot` does behind the answer to its query
  unfoldable pub create_or_update :
      ClusterSnapshotRow → Result ClusterSnapshotRow → Exec db.State (Unit {0})
  create_or_update c (err record_not_found) = db.create_snapshot c
  create_or_update c (err e) = lift (err e)
  create_or_update c panics = lift panics
  create_or_update c out_of_rounds = lift out_of_rounds
  create_or_update c (ok existing) =
      if existing.name == c.name
      then lift (ok tt)
      else db.save_snapshot (record existing { name = c.name })

  -- `CreateOrUpdateClusterSnapshot`
  unfoldable pub create_or_update_cluster_snapshot : ClusterSnapshotRow → Exec db.State (Unit {0})
  unfolding create_or_update
  create_or_update_cluster_snapshot c s =
      let (found, s') = db.take_snapshot (λ r. r.cluster_id == c.cluster_id) s in
      create_or_update c found s'

  -- `GetClusterSnapshotByID`
  unfoldable pub get_cluster_snapshot_by_id : String → Exec db.State ClusterSnapshotRow
  get_cluster_snapshot_by_id cluster_id = db.take_snapshot (λ r. r.cluster_id == cluster_id)

  -- `ListClusterSnapshotsByTenantID`
  unfoldable pub list_cluster_snapshots_by_tenant_id :
      String → Exec db.State (List ClusterSnapshotRow)
  list_cluster_snapshots_by_tenant_id tenant_id = db.find_snapshots (λ r. r.tenant_id == tenant_id)

  -- `CreateClusterSnapshotHistory`
  unfoldable pub create_cluster_snapshot_history : ClusterSnapshotHistory → Exec db.State (Unit {0})
  create_cluster_snapshot_history c = db.save_snapshot_history c

  -- `ListClusterSnapshotHistories`
  unfoldable pub list_cluster_snapshot_histories :
      String → Time → Time → Exec db.State (List ClusterSnapshotHistory)
  list_cluster_snapshot_histories cluster_id start_time end_time =
      db.find_snapshot_histories
        (λ h. h.cluster_id == cluster_id && within start_time end_time h.history_created_at)

  -- `CreateGPUTelemetryHistory`
  unfoldable pub create_gpu_telemetry_history : GpuTelemetryHistory → Exec db.State (Unit {0})
  create_gpu_telemetry_history c = db.save_telemetry_history c

  -- `ListGPUTelemetryHistories`
  unfoldable pub list_gpu_telemetry_histories :
      String → Time → Time → Exec db.State (List GpuTelemetryHistory)
  list_gpu_telemetry_histories cluster_id start_time end_time =
      db.find_telemetry_histories
        (λ h. h.cluster_id == cluster_id && within start_time end_time h.history_created_at)
