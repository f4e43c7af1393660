-- ===== src/Server/Telemetry/Laws.antt =====
-- What `SendClusterTelemetry` stores: for each payload, in order, a row from which the message can
-- be decoded.
use mathlib.Core.Path.{subst}
use mathlib.Core.List.{append-nil}
use cluster_monitor.Prelude.{◌≡◌, refl, sym, ap, ◌∙◌, Bool, Option, List, [], ◌∷◌}
use cluster_monitor.Go.Result.{ok, ok-injective, internal}
use cluster_monitor.Go.Exec.{lift, bind_inversion}
use cluster_monitor.Api.{
  ClusterSnapshot, GpuTelemetry, Payload, cluster_snapshot, gpu_telemetry, unset,
  SendClusterTelemetryRequest,
}
use cluster_monitor.Store.Rows.{ClusterSnapshotRow, ClusterSnapshotHistory, GpuTelemetryHistory}
use cluster_monitor.Store.Database.{Db, IsLawful}
use cluster_monitor.Store.{
  time_now, create_or_update_cluster_snapshot, create_cluster_snapshot_history,
  create_gpu_telemetry_history,
}
use cluster_monitor.Store.Registered.{IsIndexed}
use cluster_monitor.Store.Invariant.{create_or_update_cluster_snapshot-Kept}
use cluster_monitor.Server.Auth.{ClusterInfo, extract_cluster_info}
use cluster_monitor.Server.Gather.Laws.{with_status-ok}
use cluster_monitor.Server.Codec.{Codec}
use cluster_monitor.Server.Codec as Codec
use cluster_monitor.Server.Telemetry.{
  process_cluster_snapshot, process_gpu_telemetry, process, process_all, accept,
  send_cluster_telemetry,
}
use cluster_monitor.Server.Telemetry.Adds.{Adds, Adds-cons, snapshot_stored, telemetry_stored}

-- What a call that succeeds does to the tables.
abbrev pub Stores :
    (db : Db) {F : Type 0} → Codec F → ClusterInfo → List (Payload F) → db.State → db.State → Type 0
Stores db codec info ps s u =
    Adds codec info.cluster_id ps (db.tables s) (db.tables u) × IsIndexed (db.tables u).snapshots

module _ (db : Db) (lawful : IsLawful db) {F : Type 0} (codec : Codec F)
    (exact : Codec.IsLawful codec) (info : ClusterInfo) where
  process_cluster_snapshot-Stores :
      (m : ClusterSnapshot) (s : db.State)
      → IsIndexed (db.tables s).snapshots
      → (process_cluster_snapshot db codec info m s).0 ≡ ok tt
      → Stores db codec info
          (cluster_snapshot m ∷ [])
          s
          (process_cluster_snapshot db codec info m s).1
  unfolding process_cluster_snapshot create_cluster_snapshot_history
  process_cluster_snapshot-Stores m s x h =
      let row : ClusterSnapshotRow = record {
        id = 0;
        cluster_id = info.cluster_id;
        name = info.cluster_name;
        tenant_id = info.tenant_id;
      } in
      let first = create_or_update_cluster_snapshot db row in
      let (_, e1, h1, t1) = bind_inversion first _ s h in
      let s1 = (first s).1 in
      let (msg, e2, h2, t2) = bind_inversion (lift (codec.marshal_snapshot m)) _ s1 h1 in
      let (now, e3, h3, t3) = bind_inversion (time_now db) _ s1 h2 in
      let s2 = (db.now s1).1 in
      let history : ClusterSnapshotHistory = record {
        id = 0;
        cluster_id = info.cluster_id;
        message = msg;
        history_created_at = now;
      } in
      let (k, stored) = lawful.save_snapshot_history_ok history s2 h3 refl in
      let kept = create_or_update_cluster_snapshot-Kept db lawful row s x in
      snapshot_stored codec info.cluster_id m (record history { id = k }) (db.tables s)
        (db.tables s2) _ (rw (lawful.now_frame s1) kept) (ap db.tables (t1 ∙ t2 ∙ t3) ∙ stored) refl
        (exact.snapshot_again m msg e2)

  process_gpu_telemetry-Stores :
      (m : GpuTelemetry F) (s : db.State)
      → IsIndexed (db.tables s).snapshots
      → (process_gpu_telemetry db codec info m s).0 ≡ ok tt
      → Stores db codec info (gpu_telemetry m ∷ []) s (process_gpu_telemetry db codec info m s).1
  unfolding process_gpu_telemetry create_gpu_telemetry_history
  process_gpu_telemetry-Stores m s x h =
      let (msg, e2, h2, t2) = bind_inversion (lift (codec.marshal_telemetry m)) _ s h in
      let (now, e3, h3, t3) = bind_inversion (time_now db) _ s h2 in
      let s2 = (db.now s).1 in
      let history : GpuTelemetryHistory = record {
        id = 0;
        cluster_id = info.cluster_id;
        message = msg;
        history_created_at = now;
      } in
      let (k, stored) = lawful.save_telemetry_history_ok history s2 h3 refl in
      telemetry_stored codec info.cluster_id m (record history { id = k }) (db.tables s)
        (db.tables s2) _ (rw (lawful.now_frame s) (refl, refl, x)) (ap db.tables (t2 ∙ t3) ∙ stored)
        refl (exact.telemetry_again m msg e2)

  pub process-Stores :
      (p : Payload F) (s : db.State)
      → IsIndexed (db.tables s).snapshots
      → (process db codec info p s).0 ≡ ok tt
      → Stores db codec info (p ∷ []) s (process db codec info p s).1
  unfolding process
  process-Stores (cluster_snapshot m) s x h =
      process_cluster_snapshot-Stores m s x (with_status-ok internal _ h)
  process-Stores (gpu_telemetry m) s x h =
      process_gpu_telemetry-Stores m s x (with_status-ok internal _ h)
  process-Stores unset s x h = cc

  process_all-Stores :
      (ps : List (Payload F)) (s : db.State)
      → IsIndexed (db.tables s).snapshots
      → (process_all db codec info ps s).0 ≡ ok tt
      → Stores db codec info ps s (process_all db codec info ps s).1
  unfolding process_all
  process_all-Stores [] s x h = (
    record {
      added = [];
      added_telemetry = [];
      histories = sym (append-nil (db.tables s).snapshot_histories);
      telemetry = sym (append-nil (db.tables s).telemetry_histories);
      decode = tt;
      decode_telemetry = tt;
    },
    x,
  )
  process_all-Stores (p ∷ ps) s x h =
      let (_, e, h1, t1) = bind_inversion (process db codec info p) _ s h in
      let s1 = (process db codec info p s).1 in
      let (a, x1) = process-Stores p s x e in
      let (b, x2) = process_all-Stores ps s1 x1 h1 in
      rw t1 (Adds-cons codec info.cluster_id p ps (db.tables s) (db.tables s1) _ a b, x2)

  accept-Stores :
      (ps : List (Payload F)) (s : db.State)
      → IsIndexed (db.tables s).snapshots
      → (accept db codec info ps s).0 ≡ ok tt
      → Stores db codec info ps s (accept db codec info ps s).1
  unfolding accept
  accept-Stores [] s x h = cc
  accept-Stores (p ∷ ps) s x h = process_all-Stores (p ∷ ps) s x h

module _ (db : Db) (lawful : IsLawful db) {F : Type 0} (codec : Codec F)
    (exact : Codec.IsLawful codec) where
  pub send_cluster_telemetry-Stores :
      (enable_auth : Bool) (info : ClusterInfo) (extracted : Option ClusterInfo)
      (req : SendClusterTelemetryRequest F) (s : db.State)
      → extract_cluster_info enable_auth extracted ≡ ok info
      → IsIndexed (db.tables s).snapshots
      → (send_cluster_telemetry db codec enable_auth extracted req s).0 ≡ ok tt
      → Stores db codec info req.payloads s
          (send_cluster_telemetry db codec enable_auth extracted req s).1
  unfolding send_cluster_telemetry
  send_cluster_telemetry-Stores enable_auth info extracted req s e x h =
      let found = lift (extract_cluster_info enable_auth extracted) in
      let (info', e', h', t') = bind_inversion found _ s h in
      let same : info' ≡ info = ok-injective (sym e' ∙ e) in
      rw t' (
        subst (λ i. Stores db codec i req.payloads s (accept db codec info' req.payloads s).1) same
          (accept-Stores db lawful codec exact info' req.payloads s x h'))
