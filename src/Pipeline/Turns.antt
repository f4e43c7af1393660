-- ===== src/Pipeline/Turns.antt =====
-- What others do leaves the rows of a cluster as they are.
use mathlib.Core.Path.{subst}
use cluster_monitor.Prelude.{String, ◌≡◌, ◌≢◌, refl, sym, Bool, Option}
use cluster_monitor.Go.Result.{Result, ok, err, panics, out_of_rounds}
use cluster_monitor.Go.Exec.{◌>>=◌}
use cluster_monitor.Go.Float.{Float32}
use cluster_monitor.Api.{SendClusterTelemetryRequest}
use cluster_monitor.Store.Database.{Db, IsLawful, Tables}
use cluster_monitor.Store.Registered.{IsIndexed}
use cluster_monitor.Server.Auth.{ClusterInfo, extract_cluster_info}
use cluster_monitor.Server.Codec.{Codec}
use cluster_monitor.Server.Codec as Codec
use cluster_monitor.Server.Telemetry.{send_cluster_telemetry}
use cluster_monitor.Server.Telemetry.Partial.{send_cluster_telemetry-StoresPart}
use cluster_monitor.Server.Snapshots.Handler.Laws.{list_cluster_snapshots-ReadOnly}
use cluster_monitor.Server.Usages.Handler.Laws.{list_gpu_usages-ReadOnly}
use cluster_monitor.Pipeline.{Turn, agent_side, clock, reports, lists_snapshots, lists_usages}
use cluster_monitor.Pipeline.Own.{own, own-others}

-- The histories of the cluster are the same, and the table of clusters is indexed.
abbrev pub SameRows : String → Tables → Tables → Type 0
SameRows id t u =
    ((own id u).snapshot_histories ≡ (own id t).snapshot_histories)
    × ((own id u).telemetry_histories ≡ (own id t).telemetry_histories)
    × IsIndexed u.snapshots

same_tables : (id : String) (t u : Tables) → u ≡ t → IsIndexed t.snapshots → SameRows id t u
same_tables id t u e x = subst (SameRows id t) (sym e) (refl, refl, x)

module _ (db : Db) (lawful : IsLawful db) (float : Float32) (codec : Codec float.Carrier)
    (exact : Codec.IsLawful codec) (enable_auth : Bool) (info : ClusterInfo) where
  reports-SameRows :
      (found : Result ClusterInfo) (extracted : Option ClusterInfo)
      (req : SendClusterTelemetryRequest float.Carrier) (s : db.State)
      → extract_cluster_info enable_auth extracted ≡ found
      → ((i : ClusterInfo) → found ≡ ok i → i.cluster_id ≢ info.cluster_id)
      → IsIndexed (db.tables s).snapshots
      → SameRows info.cluster_id
          (db.tables s)
          (db.tables (send_cluster_telemetry db codec enable_auth extracted req s).1)
  unfolding send_cluster_telemetry ◌>>=◌
  reports-SameRows (ok other) extracted req s e n x =
      let part =
        send_cluster_telemetry-StoresPart db lawful codec exact enable_auth other extracted req s e
          x in
      let (adds, x') = part.stores in
      let (a, b) =
        own-others codec info.cluster_id other.cluster_id (n other refl) part.stored _ _ adds in
      (a, b, x')
  reports-SameRows (err z) extracted req s e n x = rw e (refl, refl, x)
  reports-SameRows panics extracted req s e n x = rw e (refl, refl, x)
  reports-SameRows out_of_rounds extracted req s e n x = rw e (refl, refl, x)

  pub Turn-SameRows :
      {C : Type 0} (w v : C × db.State)
      → Turn db float codec enable_auth info w v
      → IsIndexed (db.tables w.1).snapshots
      → SameRows info.cluster_id (db.tables w.1) (db.tables v.1)
  Turn-SameRows w v (agent_side a) x = (refl, refl, x)
  Turn-SameRows w v (clock s e) x = same_tables info.cluster_id (db.tables w.1) (db.tables s) e x
  Turn-SameRows w v (reports extracted req n) x =
      reports-SameRows (extract_cluster_info enable_auth extracted) extracted req w.1 refl n x
  Turn-SameRows w v (lists_snapshots caller req) x =
      same_tables info.cluster_id _ _
        (list_cluster_snapshots-ReadOnly db lawful codec.unmarshal_snapshot req caller w.1) x
  Turn-SameRows w v (lists_usages caller req) x =
      same_tables info.cluster_id _ _
        (list_gpu_usages-ReadOnly db lawful float codec.unmarshal_telemetry req caller w.1) x
