-- ===== src/Pipeline/Shown.antt =====
-- What a query shows of a cluster while its agent runs: what the agent has reported, once each.
use mathlib.Core.List.{Perm}
use mathlib.Core.List.Permᴰ
use mathlib.Core.Logic.{∥∥₁_map, ∥∥₁_elim}
use cluster_monitor.Prelude.{
  ◌≡◌, ap, ◌∙◌, String, Bool, Option, some, List, [], ◌∷◌, ◌++◌, keep, keep-append,
}
use cluster_monitor.Prelude.Perms.{keep-permᴰ}
use cluster_monitor.Prelude.Order.{◌==◌, string_ord}
use cluster_monitor.Go.Result.{ok}
use cluster_monitor.Go.Exec.{Exec}
use cluster_monitor.Go.Float.{Float32}
use cluster_monitor.Api.{
  Payload, ListClusterSnapshotsRequest, ListClusterSnapshotsResponse, ListGpuUsagesRequest,
  ListGpuUsagesResponse,
}
use cluster_monitor.Agent.Loop.{System, init}
use cluster_monitor.Store.Rows.{ClusterSnapshotRow}
use cluster_monitor.Store.Database.{Db, IsLawful, Tables, of_cluster}
use cluster_monitor.Store.Registered.{IsIndexed}
use cluster_monitor.Store.{within}
use cluster_monitor.Server.Auth.{ClusterInfo, UserInfo, extract_cluster_info}
use cluster_monitor.Server.Codec.{Codec}
use cluster_monitor.Server.Codec as Codec
use cluster_monitor.Server.Gather.Laws.{of_clusters}
use cluster_monitor.Server.Gather.Order.{of_cluster-read}
use cluster_monitor.Server.Gather.Found.{found, own_read}
use cluster_monitor.Server.Snapshots.Handler.{list_cluster_snapshots}
use cluster_monitor.Server.Snapshots.Handler.Laws.{clusters_of, list_cluster_snapshots-Reads}
use cluster_monitor.Server.Snapshots.Handler.Laws as Snapshots
use cluster_monitor.Server.Usages.Handler.{list_gpu_usages}
use cluster_monitor.Server.Usages.Handler.Laws.{list_gpu_usages-Reads}
use cluster_monitor.Server.Usages.Handler.Laws as Usages
use cluster_monitor.Pipeline.{Link, IsLink, calls_of, Run}
use cluster_monitor.Pipeline.Own.{own}
use cluster_monitor.Pipeline.Exact.{Once, Run-Once}

module _ {H : Type 0} (cluster_of : H → String) (q : H → Bool) (id : String) where
  -- Of what was read, the part of a cluster that was read.
  own_part :
      (tenant : String) (rows : List ClusterSnapshotRow) (r : ClusterSnapshotRow)
      (cs : List ClusterSnapshotRow) (hs all before added : List H)
      → IsIndexed rows
      → of_cluster id (keep (λ r. r.tenant_id == tenant) rows) ≡ r ∷ []
      → Perm cs (keep (λ r. r.tenant_id == tenant) rows)
      → Perm hs (of_clusters (found cluster_of q all) cs)
      → keep (λ h. cluster_of h == id) all ≡ before ++ added
      → Perm (keep (λ h. cluster_of h == id) hs) (keep q before ++ keep q added)
  own_part tenant rows r cs hs all before added x one p read e = ∥∥₁_elim p squash₁ λ p'.
      let single =
        of_cluster-read (λ r. r.tenant_id == tenant) rows x id cs (Permᴰ.symm p') ∙ one in
      let all_own =
        own_read cluster_of q id all cs r single ∙ ap (keep q) e ∙ keep-append q before added in
      ∥∥₁_map read λ q'. rw (← all_own) (keep-permᴰ (λ h. cluster_of h == id) q')

module _ {C : Type 0} (db : Db) (lawful : IsLawful db) (float : Float32)
    (codec : Codec float.Carrier) (exact : Codec.IsLawful codec)
    (collectors : List (Exec C (Payload float.Carrier))) (link : Link C db.State)
    (is_link : IsLink link) (enable_auth : Bool) (extracted : Option ClusterInfo)
    (info : ClusterInfo) (caller : UserInfo) where
  abbrev World : Type 0
  World = C × db.State

  abbrev Stored : World → System World float.Carrier → Type 0
  Stored = Once db lawful float codec exact collectors link is_link enable_auth extracted info

  abbrev Reached : World → System World float.Carrier → Type 0
  Reached w t =
      let agent = calls_of db float codec collectors link enable_auth extracted in
      Run db float codec enable_auth info agent (init agent w) t

  abbrev own_at : db.State → Tables
  own_at s = own info.cluster_id (db.tables s)

  -- The cluster is registered, for the tenant of the caller.
  abbrev Visible : db.State → Type 0
  Visible s =
      (row : ClusterSnapshotRow) × (of_cluster info.cluster_id
          (clusters_of caller.tenant_id (db.tables s))
        ≡ row ∷ [])

  -- Of the histories that the response is made from, those of the cluster are the ones in the
  -- window of what the server of `w` had, and of the rows that were added for its agent.
  pub record ShowsSnapshots (req : ListClusterSnapshotsRequest) (w : World)
      (t : System World float.Carrier) (resp : ListClusterSnapshotsResponse) : Type 0 where
    pub once : Stored w t
    pub reads :
        Snapshots.Reads db lawful codec.unmarshal_snapshot req caller (db.tables t.world.1) resp
    pub shown : Perm (keep (λ h. h.cluster_id == info.cluster_id) reads.hs) (
        keep (λ h. within reads.w.0 reads.w.1 h.history_created_at) (own_at w.1).snapshot_histories
        ++ keep (λ h. within reads.w.0 reads.w.1 h.history_created_at) once.rows.added)

  -- Over a lawful database with an indexed table, a lawful codec and a lawful connection, with the
  -- credentials of a cluster, in every state that its agent reaches, between requests of other
  -- clusters, queries and changes of the outside: where the cluster is registered for the tenant of
  -- a caller, a response of ListClusterSnapshots is made, of the cluster, from just the snapshots
  -- in the window that the server had at the start, and from the rows in the window that were added
  -- for the agent, which decode to the first snapshots that it collected, each once.
  pub Run-ShowsSnapshots :
      (req : ListClusterSnapshotsRequest) (w : World) (t : System World float.Carrier)
      (resp : ListClusterSnapshotsResponse)
      → extract_cluster_info enable_auth extracted ≡ ok info
      → IsIndexed (db.tables w.1).snapshots
      → Reached w t
      → Visible t.world.1
      → (list_cluster_snapshots db codec.unmarshal_snapshot req (some caller) t.world.1).0 ≡ ok resp
      → ShowsSnapshots req w t resp
  Run-ShowsSnapshots req w t resp known x r (row, one) listed =
      let once =
        Run-Once db lawful float codec exact collectors link is_link enable_auth extracted info w t
          known x r in
      let reads =
        list_cluster_snapshots-Reads db lawful codec.unmarshal_snapshot req caller t.world.1 resp
          listed in
      record {
        once = once;
        reads = reads;
        shown =
            own_part (λ h. h.cluster_id) (λ h. within reads.w.0 reads.w.1 h.history_created_at)
              info.cluster_id caller.tenant_id (db.tables t.world.1).snapshots row reads.cs reads.hs
              (db.tables t.world.1).snapshot_histories (own_at w.1).snapshot_histories
              once.rows.added once.indexed one reads.cs_of_tenant reads.hs_in_window
              once.rows.histories;
      }

  -- The same for GPU telemetry.
  pub record ShowsUsages (req : ListGpuUsagesRequest) (w : World) (t : System World float.Carrier)
      (resp : ListGpuUsagesResponse float.Carrier) : Type 0 where
    pub once : Stored w t
    pub reads :
        Usages.Reads db lawful float codec.unmarshal_telemetry req caller (db.tables t.world.1) resp
    pub shown : Perm (keep (λ h. h.cluster_id == info.cluster_id) reads.hs) (
        keep (λ h. within reads.w.0 reads.w.1 h.history_created_at) (own_at w.1).telemetry_histories
        ++ keep (λ h. within reads.w.0 reads.w.1 h.history_created_at) once.rows.added_telemetry)

  -- Over a lawful database with an indexed table, a lawful codec and a lawful connection, with the
  -- credentials of a cluster, in every state that its agent reaches, between requests of other
  -- clusters, queries and changes of the outside: where the cluster is registered for the tenant of
  -- a caller, a response of ListGpuUsages is made, of the cluster, from just the GPU telemetry in
  -- the window that the server had at the start, and from the rows in the window that were added
  -- for the agent, which decode to the first telemetry that it collected, each once.
  pub Run-ShowsUsages :
      (req : ListGpuUsagesRequest) (w : World) (t : System World float.Carrier)
      (resp : ListGpuUsagesResponse float.Carrier)
      → extract_cluster_info enable_auth extracted ≡ ok info
      → IsIndexed (db.tables w.1).snapshots
      → Reached w t
      → Visible t.world.1
      → (list_gpu_usages db float codec.unmarshal_telemetry req (some caller) t.world.1).0 ≡ ok resp
      → ShowsUsages req w t resp
  Run-ShowsUsages req w t resp known x r (row, one) listed =
      let once =
        Run-Once db lawful float codec exact collectors link is_link enable_auth extracted info w t
          known x r in
      let reads =
        list_gpu_usages-Reads db lawful float codec.unmarshal_telemetry req caller t.world.1 resp
          listed in
      record {
        once = once;
        reads = reads;
        shown =
            own_part (λ h. h.cluster_id) (λ h. within reads.w.0 reads.w.1 h.history_created_at)
              info.cluster_id caller.tenant_id (db.tables t.world.1).snapshots row reads.cs reads.hs
              (db.tables t.world.1).telemetry_histories (own_at w.1).telemetry_histories
              once.rows.added_telemetry once.indexed one reads.cs_of_tenant reads.hs_in_window
              once.rows.telemetry;
      }
