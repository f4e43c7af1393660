-- ===== src/Server/Telemetry/Success.antt =====
-- Where no statement of the database fails, `SendClusterTelemetry` succeeds.
use cluster_monitor.Prelude.{
  ◌≡◌, ◌≢◌, ◌⊎◌, inl, inr, refl, ap, ◌∙◌, Bool, Option, List, [], ◌∷◌, ◌++◌, Bool-cases,
}
use cluster_monitor.Prelude.Order.{◌==◌, string_ord}
use cluster_monitor.Go.Result.{Result, ok, err, record_not_found, internal, with_status}
use cluster_monitor.Go.Exec.{lift, bind_goes_on}
use cluster_monitor.Api.{
  Payload, cluster_snapshot, gpu_telemetry, unset, SendClusterTelemetryRequest,
}
use cluster_monitor.Store.Rows.{
  Bytes, ClusterSnapshotRow, ClusterSnapshotHistory, GpuTelemetryHistory,
}
use cluster_monitor.Store.Database.{Db, IsLawful, of_cluster}
use cluster_monitor.Store.{
  time_now, create_or_update, create_or_update_cluster_snapshot, create_cluster_snapshot_history,
  create_gpu_telemetry_history,
}
use cluster_monitor.Store.Registered.{IsIndexed, of_cluster_single}
use cluster_monitor.Server.Auth.{ClusterInfo, extract_cluster_info}
use cluster_monitor.Server.Codec.{Codec}
use cluster_monitor.Server.Codec as Codec
use cluster_monitor.Server.Telemetry.{
  process_cluster_snapshot, process_gpu_telemetry, process, process_all, accept,
  send_cluster_telemetry,
}
use cluster_monitor.Server.Telemetry.Laws.{process-Stores}

-- No statement fails: a query returns a row or finds none, a row that breaks no index is inserted
-- or written, and a history takes every row.
pub record IsUp (db : Db) : Type 0 where
  pub takes :
      (p : ClusterSnapshotRow → Bool) (s : db.State)
      → ((r : ClusterSnapshotRow) × ((db.take_snapshot p s).0 ≡ ok r))
        ⊎ ((db.take_snapshot p s).0 ≡ err record_not_found)
  pub creates :
      (r : ClusterSnapshotRow) (s : db.State)
      → of_cluster r.cluster_id (db.tables s).snapshots ≡ []
      → (db.create_snapshot r s).0 ≡ ok tt
  pub saves :
      (r e : ClusterSnapshotRow) (s : db.State)
      → of_cluster r.cluster_id (db.tables s).snapshots ≡ e ∷ []
      → r.id ≡ e.id
      → (db.save_snapshot r s).0 ≡ ok tt
  pub saves_history :
      (r : ClusterSnapshotHistory) (s : db.State) → (db.save_snapshot_history r s).0 ≡ ok tt
  pub saves_telemetry :
      (r : GpuTelemetryHistory) (s : db.State) → (db.save_telemetry_history r s).0 ≡ ok tt

module _ {F : Type 0} (codec : Codec F) where
  -- The payload has a message, which can be encoded.
  abbrev pub Encodes : Payload F → Type 0
  Encodes (cluster_snapshot m) = (b : Bytes) × (codec.marshal_snapshot m ≡ ok b)
  Encodes (gpu_telemetry m) = (b : Bytes) × (codec.marshal_telemetry m ≡ ok b)
  Encodes unset = ⊥

  abbrev pub AllEncode : List (Payload F) → Type 0
  AllEncode [] = Unit
  AllEncode (p ∷ ps) = Encodes p × AllEncode ps

module _ (db : Db) (lawful : IsLawful db) (up : IsUp db) where
  create_or_update-succeeds :
      (c : ClusterSnapshotRow) (found : Result ClusterSnapshotRow) (s : db.State)
      → IsIndexed (db.tables s).snapshots
      → ((e : ClusterSnapshotRow) × (found ≡ ok e)
          × ((before after : List ClusterSnapshotRow) × (of_cluster c.cluster_id
                  (db.tables s).snapshots
                ≡ before ++ e ∷ after)))
        ⊎ ((found ≡ err record_not_found) × (of_cluster c.cluster_id (db.tables s).snapshots ≡ []))
      → (create_or_update db c found s).0 ≡ ok tt
  unfolding create_or_update
  create_or_update-succeeds c found s x (inl (e, is_found, (before, after, split))) =
      let (single, key, n) =
        of_cluster_single c.cluster_id (db.tables s).snapshots before after e x split in
      rw is_found (elim (Bool-cases (e.name == c.name)) [
        | inl same ↦ rw same refl
        | inr differ ↦ rw differ (
            up.saves (record e { name = c.name }) e s
              (ap (λ z. of_cluster z (db.tables s).snapshots) key ∙ single) refl)
      ])
  create_or_update-succeeds c found s x (inr (missing, none_yet)) =
      rw missing (up.creates c s none_yet)

  create_or_update_cluster_snapshot-succeeds :
      (c : ClusterSnapshotRow) (s : db.State)
      → IsIndexed (db.tables s).snapshots
      → (create_or_update_cluster_snapshot db c s).0 ≡ ok tt
  unfolding create_or_update_cluster_snapshot
  create_or_update_cluster_snapshot-succeeds c s x =
      let p = λ (r : ClusterSnapshotRow). r.cluster_id == c.cluster_id in
      let frame = lawful.take_frame p s in
      create_or_update-succeeds c (db.take_snapshot p s).0 (db.take_snapshot p s).1 (rw frame x)
        (elim (up.takes p s) [
          | inl (e, h) ↦ inl (e, h, rw frame (lawful.take_ok p s e h))
          | inr h ↦ inr (h, rw frame (lawful.take_missing p s h))
        ])

  module _ {F : Type 0} (codec : Codec F) (info : ClusterInfo) where
    process-succeeds :
        (p : Payload F) (s : db.State)
        → IsIndexed (db.tables s).snapshots
        → Encodes codec p
        → (process db codec info p s).0 ≡ ok tt
    unfolding process process_cluster_snapshot process_gpu_telemetry create_cluster_snapshot_history
        create_gpu_telemetry_history
    process-succeeds (cluster_snapshot m) s x (b, e) =
        let row : ClusterSnapshotRow = record {
          id = 0;
          cluster_id = info.cluster_id;
          name = info.cluster_name;
          tenant_id = info.tenant_id;
        } in
        let first = create_or_update_cluster_snapshot db row in
        let s1 = (first s).1 in
        ap (λ r. with_status internal r.0)
          (bind_goes_on first _ s (create_or_update_cluster_snapshot-succeeds row s x)
            ∙ bind_goes_on (lift (codec.marshal_snapshot m)) _ s1 e
            ∙ bind_goes_on (time_now db) _ s1 refl)
        ∙ ap (with_status internal) (up.saves_history _ (db.now s1).1)
    process-succeeds (gpu_telemetry m) s x (b, e) =
        ap (λ r. with_status internal r.0)
          (bind_goes_on (lift (codec.marshal_telemetry m)) _ s e
            ∙ bind_goes_on (time_now db) _ s refl)
        ∙ ap (with_status internal) (up.saves_telemetry _ (db.now s).1)
    process-succeeds unset s x e = absurd e

    module _ (exact : Codec.IsLawful codec) where
      process_all-succeeds :
          (ps : List (Payload F)) (s : db.State)
          → IsIndexed (db.tables s).snapshots
          → AllEncode codec ps
          → (process_all db codec info ps s).0 ≡ ok tt
      unfolding process_all
      process_all-succeeds [] s x e = refl
      process_all-succeeds (p ∷ ps) s x (e, es) =
          let done = process-succeeds p s x e in
          let s1 = (process db codec info p s).1 in
          let (_, x1) = process-Stores db lawful codec exact info p s x done in
          ap (λ r. r.0) (bind_goes_on (process db codec info p) _ s done)
          ∙ process_all-succeeds ps s1 x1 es

      accept-succeeds :
          (ps : List (Payload F)) (s : db.State)
          → ps ≢ []
          → IsIndexed (db.tables s).snapshots
          → AllEncode codec ps
          → (accept db codec info ps s).0 ≡ ok tt
      unfolding accept
      accept-succeeds [] s n x e = absurd (n refl)
      accept-succeeds (p ∷ ps) s n x e = process_all-succeeds (p ∷ ps) s x e

module _ (db : Db) (lawful : IsLawful db) (up : IsUp db) {F : Type 0} (codec : Codec F)
    (exact : Codec.IsLawful codec) where
  -- Over a lawful database with an indexed table of which no statement fails, and a lawful codec,
  -- SendClusterTelemetry of a known cluster succeeds where the request has a payload and each
  -- payload is of a known kind and can be encoded.
  pub send_cluster_telemetry-succeeds :
      (enable_auth : Bool) (info : ClusterInfo) (extracted : Option ClusterInfo)
      (req : SendClusterTelemetryRequest F) (s : db.State)
      → extract_cluster_info enable_auth extracted ≡ ok info
      → req.payloads ≢ []
      → AllEncode codec req.payloads
      → IsIndexed (db.tables s).snapshots
      → (send_cluster_telemetry db codec enable_auth extracted req s).0 ≡ ok tt
  unfolding send_cluster_telemetry
  send_cluster_telemetry-succeeds enable_auth info extracted req s known n e x =
      ap (λ r. r.0) (bind_goes_on (lift (extract_cluster_info enable_auth extracted)) _ s known)
      ∙ accept-succeeds db lawful up codec info exact req.payloads s n x e
