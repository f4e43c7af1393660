-- ===== src/Server/Snapshots/Handler/Determined.antt =====
-- The response of `ListClusterSnapshots` is determined by the request and by what is stored.
use mathlib.Core.List.{Perm, Permᴰ, Mem, mem-cons_self, mem-cons_of_mem}
use mathlib.Core.List.Perm
use mathlib.Core.List.Permᴰ
use mathlib.Core.Logic.{∥∥₁_elim, ∥∥₁_map}
use mathlib.Core.Path.{subst}
use cluster_monitor.Prelude.{
  ℕ, ◌+◌, ◌*◌, ◌^◌, ◌<◌, ◌≤◌, ◌≡◌, sym, ap, ◌∙◌, String, some, List, [], ◌∷◌, keep, length, arith,
}
use cluster_monitor.Prelude.Perms.{keep-permᴰ, keep-&&, length-permᴰ}
use cluster_monitor.Prelude.Order.{◌==◌, string_ord, String-set}
use cluster_monitor.Go.Result.{Result, ok, ok-injective}
use cluster_monitor.Go.Time.{Time}
use cluster_monitor.Api.{ClusterSnapshot, ListClusterSnapshotsRequest, ListClusterSnapshotsResponse}
use cluster_monitor.Store.Rows.{Bytes, ClusterSnapshotRow, ClusterSnapshotHistory}
use cluster_monitor.Store.Database.{Db, IsLawful, Tables, of_cluster}
use cluster_monitor.Store.Registered.{IsIndexed}
use cluster_monitor.Store.{within}
use cluster_monitor.Server.Auth.{UserInfo}
use cluster_monitor.Server.Window.Bounds.{IsClock, AsksForWindow}
use cluster_monitor.Server.Window.Asked.{HasEnd, first_hour, hours, asked_hours}
use cluster_monitor.Server.Buckets.Laws.{instant}
use cluster_monitor.Server.Gather.Laws.{of_clusters, names_of}
use cluster_monitor.Server.Gather.Order.{
  names_of-permᴰ, of_clusters-permᴰ, of_cluster-read, short_kept,
}
use cluster_monitor.Server.Gather.Found.{length-of_clusters}
use cluster_monitor.Server.Snapshots.Answer.{answer}
use cluster_monitor.Server.Snapshots.Order.{answer-permᴰ}
use cluster_monitor.Server.Snapshots.Handler.{list_cluster_snapshots}
use cluster_monitor.Server.Snapshots.Handler.Laws.{
  clusters_of, histories_in, list_cluster_snapshots-Reads,
}

response-set : IsSet ListClusterSnapshotsResponse
response-set = hlevel String-set

module _ (unmarshal : Bytes → Result ClusterSnapshot) (req : ListClusterSnapshotsRequest)
    (tenant : String) (t : Tables) (x : IsIndexed t.snapshots)
    (few : length t.snapshot_histories < 2 ^ 31) (s n : ℕ) (small : s + n * 3600 < 2 ^ 62) where
  abbrev window : Time × Time
  window = (instant s, instant (s + n * 3600))

  abbrev read : List ClusterSnapshotRow → List ClusterSnapshotHistory
  read = of_clusters (λ id. histories_in window id t)

  few_read :
      (hs : List ClusterSnapshotHistory) (cs : List ClusterSnapshotRow)
      → Permᴰ hs (read cs)
      → Permᴰ (clusters_of tenant t) cs
      → length hs < 2 ^ 31
  few_read hs cs p q =
      let once : (id : String) → length (of_cluster id cs) ≤ 1 = λ id.
        subst (λ l. length l ≤ 1)
          (sym (of_cluster-read (λ r. r.tenant_id == tenant) t.snapshots x id cs q))
          (short_kept (λ r. r.tenant_id == tenant) id t.snapshots x) in
      let bound =
        length-of_clusters (λ h. h.cluster_id) (λ h. within window.0 window.1 h.history_created_at)
          t.snapshot_histories cs once in
      omega (arith, length-permᴰ p, bound)

  same_response :
      (cs cs' : List ClusterSnapshotRow) (hs hs' : List ClusterSnapshotHistory)
      (resp resp' : ListClusterSnapshotsResponse)
      → Permᴰ cs (clusters_of tenant t)
      → Permᴰ cs' (clusters_of tenant t)
      → Permᴰ hs (read cs)
      → Permᴰ hs' (read cs')
      → answer unmarshal req window (hs, names_of [] cs) ≡ ok resp
      → answer unmarshal req window (hs', names_of [] cs') ≡ ok resp'
      → resp ≡ resp'
  same_response cs cs' hs hs' resp resp' p p' q q' h h' =
      let names =
        names_of-permᴰ (λ r. r.tenant_id == tenant) t.snapshots x cs cs' (Permᴰ.symm p)
          (Permᴰ.symm p') in
      let again =
        answer-permᴰ unmarshal req (names_of [] cs) (names_of [] cs') names hs hs' n s resp
          (few_read hs cs q (Permᴰ.symm p)) small h
          (Permᴰ.trans q (
            Permᴰ.trans
              (of_clusters-permᴰ (λ id. histories_in window id t) (Permᴰ.trans p (Permᴰ.symm p')))
              (Permᴰ.symm q'))) in
      ok-injective (sym again ∙ h')

-- What a tenant has: the tables hold the same clusters of the tenant, and the same snapshots of
-- these, each in any order; the rest of the tables is not compared.
pub record SameFor (tenant : String) (t t' : Tables) : Type 0 where
  pub clusters : Perm (clusters_of tenant t') (clusters_of tenant t)
  pub histories :
      (c : ClusterSnapshotRow)
      → Mem c (clusters_of tenant t)
      → Perm
          (keep (λ h. h.cluster_id == c.cluster_id) t'.snapshot_histories)
          (keep (λ h. h.cluster_id == c.cluster_id) t.snapshot_histories)

module _ (w : Time × Time) (t t' : Tables) where
  histories_in-perm :
      (id : String)
      → Perm
          (keep (λ h. h.cluster_id == id) t'.snapshot_histories)
          (keep (λ h. h.cluster_id == id) t.snapshot_histories)
      → Perm (histories_in w id t') (histories_in w id t)
  histories_in-perm id p =
      let inside = λ (h : ClusterSnapshotHistory). within w.0 w.1 h.history_created_at in
      rw (keep-&& (λ h. h.cluster_id == id) inside t'.snapshot_histories) (
        rw (keep-&& (λ h. h.cluster_id == id) inside t.snapshot_histories)
          (∥∥₁_map p (keep-permᴰ inside)))

  of_clusters-perm :
      (cs : List ClusterSnapshotRow)
      → ((c : ClusterSnapshotRow)
          → Mem c cs
          → Perm
              (keep (λ h. h.cluster_id == c.cluster_id) t'.snapshot_histories)
              (keep (λ h. h.cluster_id == c.cluster_id) t.snapshot_histories))
      → Perm
          (of_clusters (λ id. histories_in w id t') cs)
          (of_clusters (λ id. histories_in w id t) cs)
  of_clusters-perm [] f = Perm.rfl
  of_clusters-perm (c ∷ cs) f =
      Perm.trans
        (Perm.append_right (of_clusters (λ id. histories_in w id t') cs)
          (histories_in-perm c.cluster_id (f c mem-cons_self)))
        (Perm.append_left (histories_in w c.cluster_id t)
          (of_clusters-perm cs (λ d m. f d (mem-cons_of_mem c m))))

-- For a request with a positive end, which lies below 2^62 seconds since the year 1, and with a
-- start that is not negative and below 2^63 - 62135596800, two responses of ListClusterSnapshots to
-- callers of one tenant are the same, over lawful databases that hold the same clusters of the
-- tenant and, for each of these, the same snapshots, in any order, of which the first has an
-- indexed table and fewer than 2^31 snapshots: whatever the databases hold of other tenants, in
-- whatever order they return their rows, and whatever the clocks show between the first fortnight
-- of the year 1 and 2^62 seconds since that year.
pub list_cluster_snapshots-Determined :
    (db db' : Db) (lawful : IsLawful db) (lawful' : IsLawful db')
    (unmarshal : Bytes → Result ClusterSnapshot) (req : ListClusterSnapshotsRequest)
    (caller caller' : UserInfo) (s : db.State) (s' : db'.State)
    (resp resp' : ListClusterSnapshotsResponse)
    → caller'.tenant_id ≡ caller.tenant_id
    → SameFor caller.tenant_id (db.tables s) (db'.tables s')
    → IsIndexed (db.tables s).snapshots
    → length (db.tables s).snapshot_histories < 2 ^ 31
    → ((z : db.State) → IsClock (db.now z).0)
    → ((z : db'.State) → IsClock (db'.now z).0)
    → AsksForWindow req.filter
    → HasEnd req.filter
    → (list_cluster_snapshots db unmarshal req (some caller) s).0 ≡ ok resp
    → (list_cluster_snapshots db' unmarshal req (some caller') s').0 ≡ ok resp'
    → resp ≡ resp'
list_cluster_snapshots-Determined db db' lawful lawful' unmarshal req caller caller' s s' resp resp'
      tenant same x few clock clock' asks ends h h' =
    let a = list_cluster_snapshots-Reads db lawful unmarshal req caller s resp h in
    let b = list_cluster_snapshots-Reads db' lawful' unmarshal req caller' s' resp' h' in
    let (wa, small) = asked_hours req.filter _ a.w (clock a.read_at) asks ends a.w_asked in
    let (wb, _) = asked_hours req.filter _ b.w (clock' b.read_at) asks ends b.w_asked in
    let w : Time × Time = (
      instant (first_hour req.filter),
      instant (first_hour req.filter + hours req.filter * 3600),
    ) in
    let cs_read : Perm b.cs (clusters_of caller.tenant_id (db.tables s)) =
      Perm.trans (subst (λ z. Perm b.cs (clusters_of z (db'.tables s'))) tenant b.cs_of_tenant)
        same.clusters in
    let hs_read : Perm a.hs (of_clusters (λ id. histories_in w id (db.tables s)) a.cs) =
      subst (λ v. Perm a.hs (of_clusters (λ id. histories_in v id (db.tables s)) a.cs)) wa
        a.hs_in_window in
    let hs_read' : Perm b.hs (of_clusters (λ id. histories_in w id (db.tables s)) b.cs) =
      Perm.trans
        (subst (λ v. Perm b.hs (of_clusters (λ id. histories_in v id (db'.tables s')) b.cs)) wb
          b.hs_in_window)
        (of_clusters-perm w (db.tables s) (db'.tables s') b.cs
          (λ c m. same.histories c ((Perm.mem_iff cs_read).0 m))) in
    let equal : IsProp (resp ≡ resp') = response-set resp resp' in
    ∥∥₁_elim a.cs_of_tenant equal λ p. ∥∥₁_elim cs_read equal λ p'. ∥∥₁_elim hs_read equal λ q.
      ∥∥₁_elim hs_read' equal λ q'.
        same_response unmarshal req caller.tenant_id (db.tables s) x few (first_hour req.filter)
          (hours req.filter) small a.cs b.cs a.hs b.hs resp resp' p p' q q'
          (ap (λ v. answer unmarshal req v (a.hs, names_of [] a.cs)) (sym wa) ∙ a.answered)
          (ap (λ v. answer unmarshal req v (b.hs, names_of [] b.cs)) (sym wb) ∙ b.answered)
