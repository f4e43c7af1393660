-- ===== src/Pipeline.antt =====
-- The agent of one cluster, the worker service that it sends to, and all others that call the
-- server: the loop of agent/internal/collector/collector.go and agent/internal/sender/sender.go over
-- the handlers of server/internal/server, in any interleaving.
pub mod Own
pub mod Turns
pub mod Local
pub mod Saved
pub mod Exact
pub mod Shown
pub mod Round
use cluster_monitor.Prelude.{◌≡◌, ◌≢◌, ◌⊎◌, Bool, true, Option, List, map}
use cluster_monitor.Go.Result.{Result, ok}
use cluster_monitor.Go.Exec.{Exec}
use cluster_monitor.Api.{
  Payload, SendClusterTelemetryRequest, ListClusterSnapshotsRequest, ListGpuUsagesRequest,
}
use cluster_monitor.Agent.Loop.{Calls, System, Advance, init}
use cluster_monitor.Store.Database.{Db}
use cluster_monitor.Server.Auth.{ClusterInfo, UserInfo, extract_cluster_info}
use cluster_monitor.Server.Codec.{Codec}
use cluster_monitor.Go.Float.{Float32}
use cluster_monitor.Server.Telemetry.{send_cluster_telemetry}
use cluster_monitor.Server.Snapshots.Handler.{list_cluster_snapshots}
use cluster_monitor.Server.Usages.Handler.{list_gpu_usages}

-- A call that leaves what is behind the server as it is.
abbrev pub at_agent : {C S A : Type 0} → Exec C A → Exec (C × S) A
at_agent c (a, s) = let (r, a') = c a in (r, (a', s))

-- A gRPC connection: a call of the client runs the handler on the other side, or does not.
abbrev pub Link : Type 0 → Type 0 → Type 0
Link C S = Exec S (Unit {0}) → Exec (C × S) (Unit {0})

-- What gRPC documents of a call with no retries: it succeeds only where the handler has returned
-- without an error, and where it fails the handler may have run, once, or not at all.
pub record IsLink {C S : Type 0} (link : Link C S) : Type 1 where
  pub succeeds :
      (handler : Exec S (Unit {0})) (a : C) (s : S)
      → (link handler (a, s)).0 ≡ ok tt
      → ((handler s).0 ≡ ok tt) × ((link handler (a, s)).1.1 ≡ (handler s).1)
  pub fails :
      (handler : Exec S (Unit {0})) (a : C) (s : S)
      → (link handler (a, s)).0 ≢ ok tt
      → ((link handler (a, s)).1.1 ≡ s) ⊎ ((link handler (a, s)).1.1 ≡ (handler s).1)

-- What the agent calls, where its world is all that its libraries know, and the server's.
abbrev pub calls_of :
    {C : Type 0} (db : Db) (float : Float32) (codec : Codec float.Carrier)
    (collectors : List (Exec C (Payload float.Carrier))) (link : Link C db.State)
    (enable_auth : Bool) (extracted : Option ClusterInfo)
    → Calls (C × db.State) float.Carrier
calls_of db float codec collectors link enable_auth extracted = record {
  collectors = map at_agent collectors;
  send = λ req. link (send_cluster_telemetry db codec enable_auth extracted req);
}

module _ {C : Type 0} (db : Db) (float : Float32) (codec : Codec float.Carrier) (enable_auth : Bool)
    (info : ClusterInfo) where
  -- What others do: the world of the agent changes, the clock of the server runs, another cluster
  -- sends telemetry, or somebody queries.
  pub data Turn (w : C × db.State) : C × db.State → Type 0 where
    agent_side : (a : C) → Turn w (a, w.1)
    clock : (s : db.State) → db.tables s ≡ db.tables w.1 → Turn w (w.0, s)
    reports :
        (extracted : Option ClusterInfo) (req : SendClusterTelemetryRequest float.Carrier)
        → ((i : ClusterInfo)
            → extract_cluster_info enable_auth extracted ≡ ok i
            → i.cluster_id ≢ info.cluster_id)
        → Turn w (w.0, (send_cluster_telemetry db codec enable_auth extracted req w.1).1)
    lists_snapshots :
        (caller : Option UserInfo) (req : ListClusterSnapshotsRequest)
        → Turn w (w.0, (list_cluster_snapshots db codec.unmarshal_snapshot req caller w.1).1)
    lists_usages :
        (caller : Option UserInfo) (req : ListGpuUsagesRequest)
        → Turn w (w.0, (list_gpu_usages db float codec.unmarshal_telemetry req caller w.1).1)

  -- A run of the agent from a state, between the turns of the others.
  pub data Run (calls : Calls (C × db.State) float.Carrier)
      (s : System (C × db.State) float.Carrier) : System (C × db.State) float.Carrier → Type 0 where
    start : Run calls s s
    advances :
        {t u : System (C × db.State) float.Carrier}
        → Run calls s t
        → Advance calls t u
        → Run calls s u
    cancels :
        {t : System (C × db.State) float.Carrier}
        → Run calls s t
        → Run calls s (record t { cancelled = true })
    turns :
        {t : System (C × db.State) float.Carrier} {w : C × db.State}
        → Run calls s t
        → Turn t.world w
        → Run calls s (record t { world = w })
