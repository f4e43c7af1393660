-- ===== src/Server/Usages/Handler/Laws.antt =====
-- What `ListGpuUsages` reads, and that it writes nothing.
use mathlib.Core.List.{Perm, cons≢nil}
use mathlib.Core.Path.{subst}
use cluster_monitor.Prelude.{
  ◌≡◌, refl, sym, ap, ◌∙◌, String, ◌&&◌, Option, none, some, List, [], ◌∷◌, keep,
}
use cluster_monitor.Prelude.Order.{◌==◌, string_ord}
use cluster_monitor.Go.Result.{Result, ok, ok-injective, internal}
use cluster_monitor.Go.Float.{Float32}
use cluster_monitor.Go.Time.{Time}
use cluster_monitor.Go.Exec.{lift, or_status, bind_inversion}
use cluster_monitor.Api.{GpuTelemetry, ListGpuUsagesRequest, ListGpuUsagesResponse}
use cluster_monitor.Store.Rows.{Bytes, ClusterSnapshotRow, GpuTelemetryHistory}
use cluster_monitor.Store.Database.{Db, IsLawful, Tables}
use cluster_monitor.Store.ReadOnly.{ReadOnly, bind-ReadOnly}
use cluster_monitor.Store.{
  within, time_now, list_cluster_snapshots_by_tenant_id, list_gpu_telemetry_histories,
}
use cluster_monitor.Server.Auth.{UserInfo}
use cluster_monitor.Server.Window.{get_start_end_time, default_duration}
use cluster_monitor.Server.Gather.{gather}
use cluster_monitor.Server.Gather.Laws.{
  gather-ReadOnly, gather-perm, with_status-ok, of_clusters, names_of,
}
use cluster_monitor.Server.Snapshots.Handler.Laws.{clusters_of}
use cluster_monitor.Server.Usages.Answer.{answer}
use cluster_monitor.Server.Usages.Handler.{list_usages_for, list_gpu_usages}

-- The messages of a cluster in a window.
abbrev pub histories_in : Time × Time → String → Tables → List GpuTelemetryHistory
histories_in w id t =
    keep (λ h. h.cluster_id == id && within w.0 w.1 h.history_created_at) t.telemetry_histories

module _ (db : Db) (lawful : IsLawful db) (float : Float32)
    (unmarshal : Bytes → Result (GpuTelemetry float.Carrier)) (req : ListGpuUsagesRequest) where
  histories-ReadOnly :
      (w : Time × Time) (id : String) → ReadOnly db (list_gpu_telemetry_histories db id w.0 w.1)
  unfolding list_gpu_telemetry_histories
  histories-ReadOnly w id = lawful.find_telemetry_histories_frame _

  histories_found :
      (w : Time × Time) (id : String) (s : db.State) (rs : List GpuTelemetryHistory)
      → (list_gpu_telemetry_histories db id w.0 w.1 s).0 ≡ ok rs
      → Perm rs (histories_in w id (db.tables s))
  unfolding list_gpu_telemetry_histories
  histories_found w id s rs h = lawful.find_telemetry_histories_ok _ s rs h

  list_usages_for-ReadOnly :
      (cs : List ClusterSnapshotRow) → ReadOnly db (list_usages_for db float unmarshal req cs)
  unfolding list_usages_for
  list_usages_for-ReadOnly [] = λ s. refl
  list_usages_for-ReadOnly (c ∷ cs) = bind-ReadOnly db (time_now db) _ lawful.now_frame (λ now.
      bind-ReadOnly db (lift (get_start_end_time req.filter now default_duration)) _ (λ s. refl)
        (λ w.
          bind-ReadOnly db (gather (λ id. list_gpu_telemetry_histories db id w.0 w.1) (c ∷ cs)) _
            (gather-ReadOnly db _ (c ∷ cs) (histories-ReadOnly w)) (λ found s. refl)))

  -- Over a lawful database, ListGpuUsages changes no table, whether it returns a response or an
  -- error.
  pub list_gpu_usages-ReadOnly :
      (caller : Option UserInfo) → ReadOnly db (list_gpu_usages db float unmarshal req caller)
  unfolding list_gpu_usages list_cluster_snapshots_by_tenant_id
  list_gpu_usages-ReadOnly none = λ s. refl
  list_gpu_usages-ReadOnly (some caller) =
      bind-ReadOnly db
        (or_status internal (list_cluster_snapshots_by_tenant_id db caller.tenant_id)) _
        (lawful.find_frame _) list_usages_for-ReadOnly

  -- What a response is made from: the clusters `cs`, the window `w` and the histories `hs`.
  pub record Reads (caller : UserInfo) (t : Tables) (resp : ListGpuUsagesResponse float.Carrier)
      : Type 0 where
    pub cs : List ClusterSnapshotRow
    pub read_at : db.State
    pub w : Time × Time
    pub hs : List GpuTelemetryHistory
    pub cs_of_tenant : Perm cs (clusters_of caller.tenant_id t)
    pub some_cluster : ¬ (cs ≡ [])
    pub w_asked : get_start_end_time req.filter (db.now read_at).0 default_duration ≡ ok w
    pub hs_in_window : Perm hs (of_clusters (λ id. histories_in w id t) cs)
    pub answered : answer float unmarshal w (hs, names_of [] cs) ≡ ok resp

  list_usages_for-Reads :
      (caller : UserInfo) (cs : List ClusterSnapshotRow) (s : db.State)
      (resp : ListGpuUsagesResponse float.Carrier)
      → Perm cs (clusters_of caller.tenant_id (db.tables s))
      → (list_usages_for db float unmarshal req cs s).0 ≡ ok resp
      → Reads caller (db.tables s) resp
  unfolding list_usages_for
  list_usages_for-Reads caller [] s resp p h = cc
  list_usages_for-Reads caller (c ∷ cs) s resp p h =
      let (now, e1, h1, _) = bind_inversion (time_now db) _ s h in
      let s1 = (db.now s).1 in
      let (w, e2, h2, _) =
        bind_inversion (lift (get_start_end_time req.filter now default_duration)) _ s1 h1 in
      let list = λ (id : String). list_gpu_telemetry_histories db id w.0 w.1 in
      let (found, e3, h3, _) = bind_inversion (gather list (c ∷ cs)) _ s1 h2 in
      let (q, named) =
        gather-perm db list (histories_in w) (histories-ReadOnly w) (histories_found w) (c ∷ cs) s1
          found e3 in
      record {
        cs = c ∷ cs;
        read_at = s;
        w = w;
        hs = found.0;
        cs_of_tenant = p;
        some_cluster = λ e. cons≢nil e;
        w_asked = ap (λ n. get_start_end_time req.filter n default_duration) (ok-injective e1) ∙ e2;
        hs_in_window =
            subst (λ t. Perm found.0 (of_clusters (λ id. histories_in w id t) (c ∷ cs)))
              (lawful.now_frame s) q;
        answered = ap (λ n. answer float unmarshal w (found.0, n)) (sym named) ∙ h3;
      }

  -- Over a lawful database, a response of ListGpuUsages is made from all clusters of the caller's
  -- tenant, at least one, and from just their GPU telemetry in the window that getStartEndTime
  -- gives for the filter and an instant of the clock.
  pub list_gpu_usages-Reads :
      (caller : UserInfo) (s : db.State) (resp : ListGpuUsagesResponse float.Carrier)
      → (list_gpu_usages db float unmarshal req (some caller) s).0 ≡ ok resp
      → Reads caller (db.tables s) resp
  unfolding list_gpu_usages list_cluster_snapshots_by_tenant_id
  list_gpu_usages-Reads caller s resp h =
      let p = λ (r : ClusterSnapshotRow). r.tenant_id == caller.tenant_id in
      let find = or_status internal (list_cluster_snapshots_by_tenant_id db caller.tenant_id) in
      let (cs, e, k, _) = bind_inversion find _ s h in
      let frame = lawful.find_frame p s in
      subst (λ t. Reads caller t resp) frame
        (list_usages_for-Reads caller cs (db.find_snapshots p s).1 resp
          (subst (λ t. Perm cs (clusters_of caller.tenant_id t)) (sym frame)
            (lawful.find_ok p s cs (with_status-ok internal _ e)))
          k)
