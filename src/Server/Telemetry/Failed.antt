-- ===== src/Server/Telemetry/Failed.antt =====
-- A payload that fails leaves both histories as they were.
use cluster_monitor.Prelude.{◌≢◌, inl, inr, refl, ap}
use cluster_monitor.Go.Result.{Result, ok, Code, with_status, internal}
use cluster_monitor.Go.Exec.{lift, bind_failed}
use cluster_monitor.Api.{
  ClusterSnapshot, GpuTelemetry, Payload, cluster_snapshot, gpu_telemetry, unset,
}
use cluster_monitor.Store.Rows.{ClusterSnapshotRow}
use cluster_monitor.Store.Database.{Db, IsLawful}
use cluster_monitor.Store.Registered.{IsIndexed}
use cluster_monitor.Store.Invariant.{Kept, create_or_update_cluster_snapshot-Kept}
use cluster_monitor.Store.{
  time_now, create_or_update_cluster_snapshot, create_cluster_snapshot_history,
  create_gpu_telemetry_history,
}
use cluster_monitor.Server.Auth.{ClusterInfo}
use cluster_monitor.Server.Codec.{Codec}
use cluster_monitor.Server.Telemetry.{process_cluster_snapshot, process_gpu_telemetry, process}

with_status-failed : (k : Code) (r : Result (Unit {0})) → with_status k r ≢ ok tt → r ≢ ok tt
with_status-failed k r h e = h (ap (with_status k) e)

module _ (db : Db) (lawful : IsLawful db) {F : Type 0} (codec : Codec F) (info : ClusterInfo) where
  -- The histories of `s` are those of `u`, and `u` is indexed.
  abbrev Keeps : db.State → db.State → Type 0
  Keeps s u = Kept (db.tables s) (db.tables u)

  process_cluster_snapshot-failed :
      (m : ClusterSnapshot) (s : db.State)
      → IsIndexed (db.tables s).snapshots
      → (process_cluster_snapshot db codec info m s).0 ≢ ok tt
      → Keeps s (process_cluster_snapshot db codec info m s).1
  unfolding process_cluster_snapshot create_cluster_snapshot_history
  process_cluster_snapshot-failed m s x h =
      let row : ClusterSnapshotRow = record {
        id = 0;
        cluster_id = info.cluster_id;
        name = info.cluster_name;
        tenant_id = info.tenant_id;
      } in
      let first = create_or_update_cluster_snapshot db row in
      let s1 = (first s).1 in
      let kept = create_or_update_cluster_snapshot-Kept db lawful row s x in
      elim (bind_failed first _ s h) [
        | inl (_, t1) ↦ rw t1 kept
        | inr (_, _, h1, t1) ↦ elim (bind_failed (lift (codec.marshal_snapshot m)) _ s1 h1) [
          | inl (_, t2) ↦ rw t1 (rw t2 kept)
          | inr (msg, _, h2, t2) ↦ elim (bind_failed (time_now db) _ s1 h2) [
            | inl (e, _) ↦ absurd (e _ refl)
            | inr (now, _, h3, t3) ↦ rw t1 (
                rw t2 (
                  rw t3 (
                    rw (lawful.save_snapshot_history_failed _ (db.now s1).1 h3)
                      (rw (lawful.now_frame s1) kept))))
          ]
        ]
      ]

  process_gpu_telemetry-failed :
      (m : GpuTelemetry F) (s : db.State)
      → IsIndexed (db.tables s).snapshots
      → (process_gpu_telemetry db codec info m s).0 ≢ ok tt
      → Keeps s (process_gpu_telemetry db codec info m s).1
  unfolding process_gpu_telemetry create_gpu_telemetry_history
  process_gpu_telemetry-failed m s x h =
      elim (bind_failed (lift (codec.marshal_telemetry m)) _ s h) [
        | inl (_, t2) ↦ rw t2 (refl, refl, x)
        | inr (msg, _, h2, t2) ↦ elim (bind_failed (time_now db) _ s h2) [
          | inl (e, _) ↦ absurd (e _ refl)
          | inr (now, _, h3, t3) ↦ rw t2 (
              rw t3 (
                rw (lawful.save_telemetry_history_failed _ (db.now s).1 h3)
                  (rw (lawful.now_frame s) (refl, refl, x))))
        ]
      ]

  pub process-failed :
      (p : Payload F) (s : db.State)
      → IsIndexed (db.tables s).snapshots
      → (process db codec info p s).0 ≢ ok tt
      → Keeps s (process db codec info p s).1
  unfolding process
  process-failed (cluster_snapshot m) s x h =
      process_cluster_snapshot-failed m s x (with_status-failed internal _ h)
  process-failed (gpu_telemetry m) s x h =
      process_gpu_telemetry-failed m s x (with_status-failed internal _ h)
  process-failed unset s x h = (refl, refl, x)
