-- ===== src/Server/Visible.antt =====
-- From the agent to the answer: a snapshot that SendClusterTelemetry has stored takes part in the
-- response of ListClusterSnapshots.
pub mod One
use cluster_monitor.Server.Visible.One.{
  mem-keep, mem-of_clustersᴰ, row_of_registered, row_of, the_row,
  process_cluster_snapshot-registered, send_one,
}
use mathlib.Core.Path.{subst}
use mathlib.Core.Logic.{∥∥₁_map, ∥∥₁_elim}
use mathlib.Core.List.{
  Memᴰ, Mem, Mem-prop, mem-cons_self, mem-cons_of_mem, mem-append_left, mem-append_right, Perm,
}
use mathlib.Core.List.Perm
use cluster_monitor.Prelude.{
  ◌≡◌, ◌≢◌, ◌⊎◌, inl, inr, refl, sym, ap, ◌∙◌, String, Bool, true, false, Option, none, some, List,
  [], ◌∷◌, ◌++◌, keep, if◌then◌else◌, Bool-cases, ◌&&◌,
}
use cluster_monitor.Prelude.Order.{◌==◌, ==_refl, eq_of_==, string_ord}
use cluster_monitor.Go.Result.{Result, ok, ok-injective, internal}
use cluster_monitor.Go.Exec.{lift, bind_inversion}
use cluster_monitor.Go.Time.{Time}
use cluster_monitor.Api.{
  ClusterSnapshot, Payload, cluster_snapshot, ListClusterSnapshotsRequest,
  ListClusterSnapshotsResponse, SendClusterTelemetryRequest,
}
use cluster_monitor.Agent.Loop.{request}
use cluster_monitor.Store.Rows.{ClusterSnapshotRow, ClusterSnapshotHistory}
use cluster_monitor.Store.Database.{Db, IsLawful, Tables}
use cluster_monitor.Store.{
  time_now, within, create_or_update_cluster_snapshot, create_cluster_snapshot_history,
}
use cluster_monitor.Store.Registered.{IsIndexed, Registered, registered, update_entry}
use cluster_monitor.Store.Upsert.{create_or_update-registered}
use cluster_monitor.Server.Auth.{ClusterInfo, UserInfo, extract_cluster_info}
use cluster_monitor.Server.Codec.{Codec}
use cluster_monitor.Server.Codec as Codec
use cluster_monitor.Server.Gather.Laws.{of_clusters, with_status-ok}
use cluster_monitor.Server.Telemetry.{
  process_cluster_snapshot, process, process_all, accept, send_cluster_telemetry,
}
use cluster_monitor.Server.Telemetry.Adds.{Adds, Decode}
use cluster_monitor.Server.Telemetry.Laws.{send_cluster_telemetry-Stores}
use cluster_monitor.Server.Snapshots.Handler.{list_cluster_snapshots}
use cluster_monitor.Server.Snapshots.Handler.Laws.{
  clusters_of, histories_in, Reads, list_cluster_snapshots-Reads,
}

module _ (db : Db) (lawful : IsLawful db) {F : Type 0} (codec : Codec F)
    (exact : Codec.IsLawful codec) (caller : UserInfo) (info : ClusterInfo) (m : ClusterSnapshot)
    (req : ListClusterSnapshotsRequest) where
  -- The response is made from histories; behind those of the tables `t` the tables `u` have a row
  -- of the cluster, from which the snapshot is decoded; and the response is made from this row
  -- too, unless it lies outside of the window.
  pub record Shows (t u : Tables) (resp : ListClusterSnapshotsResponse) : Type 0 where
    pub reads : Reads db lawful codec.unmarshal_snapshot req caller u resp
    pub row : ClusterSnapshotHistory
    pub stored : u.snapshot_histories ≡ t.snapshot_histories ++ row ∷ []
    pub of_cluster : row.cluster_id ≡ info.cluster_id
    pub decoded : codec.unmarshal_snapshot row.message ≡ ok m
    pub shown : (within reads.w.0 reads.w.1 row.history_created_at ≡ false) ⊎ Mem row reads.hs

  -- A row of a cluster of the caller is among the histories read, if it is in the window.
  mem-hs :
      (u : Tables) (resp : ListClusterSnapshotsResponse)
      (reads : Reads db lawful codec.unmarshal_snapshot req caller u resp) (c : ClusterSnapshotRow)
      (row : ClusterSnapshotHistory)
      → Mem c u.snapshots
      → c.tenant_id ≡ caller.tenant_id
      → Mem row u.snapshot_histories
      → row.cluster_id ≡ c.cluster_id
      → within reads.w.0 reads.w.1 row.history_created_at ≡ true
      → Mem row reads.hs
  mem-hs u resp reads c row mc tenant mr cluster inside =
      let c_read : Mem c reads.cs = (Perm.mem_iff reads.cs_of_tenant).1 (
        mem-keep (λ r. r.tenant_id == caller.tenant_id) (rw tenant (==_refl caller.tenant_id))
          mc) in
      let row_kept : Mem row (histories_in reads.w c.cluster_id u) =
        mem-keep _ (rw cluster (rw (==_refl c.cluster_id) inside)) mr in
      (Perm.mem_iff reads.hs_in_window).1
        (∥∥₁_elim c_read Mem-prop (mem-of_clustersᴰ (λ id. histories_in reads.w id u) row_kept))

  -- Over a lawful database with an indexed table and a lawful codec, where the cluster of the
  -- sender is, or is about to be, registered for the tenant of a later caller, a request with one
  -- snapshot that SendClusterTelemetry accepts has added one row, from which the snapshot is
  -- decoded, and a response of ListClusterSnapshots to that caller is made from this row too,
  -- unless its time lies outside of the window.
  pub send_cluster_telemetry-Shows :
      (enable_auth : Bool) (extracted : Option ClusterInfo) (s : db.State)
      (resp : ListClusterSnapshotsResponse)
      → extract_cluster_info enable_auth extracted ≡ ok info
      → IsIndexed (db.tables s).snapshots
      → (update_entry (row_of info) (registered info.cluster_id (db.tables s).snapshots)).tenant
        ≡ caller.tenant_id
      → (send_cluster_telemetry db codec enable_auth extracted (request (cluster_snapshot m)) s).0
        ≡ ok tt
      → (list_cluster_snapshots db codec.unmarshal_snapshot req
          (some caller)
          (send_cluster_telemetry db codec enable_auth extracted
            (request (cluster_snapshot m))
            s).1).0
        ≡ ok resp
      → Shows
          (db.tables s)
          (db.tables
            (send_cluster_telemetry db codec enable_auth extracted
              (request (cluster_snapshot m))
              s).1)
          resp
  send_cluster_telemetry-Shows enable_auth extracted s resp e x tenant h listed =
      let u =
        (send_cluster_telemetry db codec enable_auth extracted (request (cluster_snapshot m))
          s).1 in
      let reads =
        list_cluster_snapshots-Reads db lawful codec.unmarshal_snapshot req caller u resp listed in
      let (adds, _) =
        send_cluster_telemetry-Stores db lawful codec exact enable_auth info extracted
          (request (cluster_snapshot m)) s e x h in
      let (row, only, cluster, decoded) = the_row codec info.cluster_id m adds.added adds.decode in
      let stored = adds.histories ∙ ap (λ l. (db.tables s).snapshot_histories ++ l) only in
      let (done, same) = send_one db lawful codec info m enable_auth extracted s e h in
      let (c, mc, cc_id, ct) = row_of_registered info.cluster_id (db.tables u).snapshots _ (
        ap (λ z. registered info.cluster_id (db.tables z).snapshots) same
        ∙ process_cluster_snapshot-registered db lawful codec info m s x done) in
      let mr : Mem row (db.tables u).snapshot_histories =
        rw stored (mem-append_right (db.tables s).snapshot_histories mem-cons_self) in
      record {
        reads = reads;
        row = row;
        stored = stored;
        of_cluster = cluster;
        decoded = decoded;
        shown = elim (Bool-cases (within reads.w.0 reads.w.1 row.history_created_at)) [
          | inl inside ↦ inr (
              mem-hs (db.tables u) resp reads c row mc (ct ∙ tenant) mr (cluster ∙ sym cc_id)
                inside)
          | inr outside ↦ inl outside
        ];
      }
