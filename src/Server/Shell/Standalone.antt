-- ===== src/Server/Shell/Standalone.antt =====
-- Both services without authentication: what an agent sends, every caller is shown.
use mathlib.Core.Path.{subst}
use cluster_monitor.Prelude.{◌≡◌, refl, sym, ap, ◌∙◌, false, Option}
use cluster_monitor.Go.Result.{ok, ok-injective}
use cluster_monitor.Api.{
  ClusterSnapshot, cluster_snapshot, ListClusterSnapshotsRequest, ListClusterSnapshotsResponse,
  SendClusterTelemetryRequest,
}
use cluster_monitor.Agent.Loop.{request}
use cluster_monitor.Store.Database.{Db, IsLawful}
use cluster_monitor.Store.Registered.{IsIndexed, registered, update_entry}
use cluster_monitor.Server.Auth.{
  ClusterInfo, fake_user, default_cluster_id, default_tenant_id, extract_cluster_info,
}
use cluster_monitor.Server.Codec.{Codec}
use cluster_monitor.Server.Codec as Codec
use cluster_monitor.Server.Config.{AuthConfig}
use cluster_monitor.Server.Telemetry.{send_cluster_telemetry}
use cluster_monitor.Server.Snapshots.Handler.{list_cluster_snapshots}
use cluster_monitor.Server.Visible.One.{row_of}
use cluster_monitor.Server.Visible.{Shows, send_cluster_telemetry-Shows}
use cluster_monitor.Server.Shell.{
  Context, Handler, Network, Guard, WorkerGuard, guard_of, worker_guard_of, intercept,
  intercept_worker, enable_auth, fake, unguarded,
}

-- the cluster that all agents are, without authentication
abbrev pub default_info : ClusterInfo
default_info = record {
  cluster_id = default_cluster_id;
  cluster_name = "";
  tenant_id = default_tenant_id;
}

default_extracted :
    (extracted : Option ClusterInfo) → extract_cluster_info false extracted ≡ ok default_info
unfolding extract_cluster_info
default_extracted extracted = refl

module _ (db : Db) (lawful : IsLawful db) {F : Type 0} (codec : Codec F)
    (exact : Codec.IsLawful codec) (network : Network db.State) where
  -- the handlers of the two services, on what is found in a context
  abbrev pub query_handler :
      Handler db.State ListClusterSnapshotsRequest ListClusterSnapshotsResponse
  query_handler ctx req = list_cluster_snapshots db codec.unmarshal_snapshot req ctx.user

  abbrev pub worker_handler :
      WorkerGuard network → Handler db.State (SendClusterTelemetryRequest F) (Unit {0})
  worker_handler guard ctx req =
      send_cluster_telemetry db codec (enable_auth network guard) ctx.cluster req

  guard_of-fake :
      (c : AuthConfig) (s : db.State) (guard : Guard network)
      → c.enable ≡ false
      → (guard_of network c s).0 ≡ ok guard
      → fake ≡ guard
  unfolding guard_of
  guard_of-fake c s guard off h = ok-injective (rw off at h)

  worker_guard_of-unguarded :
      (c : AuthConfig) (s : db.State) (guard : WorkerGuard network)
      → c.enable ≡ false
      → (worker_guard_of network c s).0 ≡ ok guard
      → unguarded ≡ guard
  unfolding worker_guard_of
  worker_guard_of-unguarded c s guard off h = ok-injective (rw off at h)

  module _ (usage : network.Usage)
      (transparent : (ctx : Context) (req : ListClusterSnapshotsRequest) (s : db.State)
        → (network.usage_unary usage query_handler ctx req s).0 ≡ (query_handler ctx req s).0) where
    unguarded-Shows :
        (m : ClusterSnapshot) (req : ListClusterSnapshotsRequest)
        (resp : ListClusterSnapshotsResponse) (agent caller : Context) (s : db.State)
        → IsIndexed (db.tables s).snapshots
        → (update_entry
            (row_of default_info)
            (registered default_cluster_id (db.tables s).snapshots)).tenant
          ≡ default_tenant_id
        → (intercept_worker network unguarded
            (worker_handler unguarded)
            agent
            (request (cluster_snapshot m))
            s).0
          ≡ ok tt
        → (intercept network fake usage query_handler caller req
            (intercept_worker network unguarded
              (worker_handler unguarded)
              agent
              (request (cluster_snapshot m))
              s).1).0
          ≡ ok resp
        → Shows db lawful codec exact fake_user default_info m req
            (db.tables s)
            (db.tables
              (intercept_worker network unguarded
                (worker_handler unguarded)
                agent
                (request (cluster_snapshot m))
                s).1)
            resp
    unfolding intercept intercept_worker
    unguarded-Shows m req resp agent caller s x tenant sent shown =
        send_cluster_telemetry-Shows db lawful codec exact fake_user default_info m req false
          agent.cluster s resp (default_extracted agent.cluster) x tenant sent
          (sym (transparent _ req _) ∙ shown)

    -- Over a lawful database with an indexed table and a lawful codec, where authentication is
    -- disabled for both services, the interceptor for the usage changes no response, and the
    -- default cluster is of the default tenant if it is registered, a snapshot that the worker
    -- service accepts, whoever sends it, has added one row, and a response of ListClusterSnapshots,
    -- whoever asks, is made from this row too, unless its time lies outside of the window.
    pub standalone-Shows :
        (c : AuthConfig) (started worker_started : db.State) (guard : Guard network)
        (worker_guard : WorkerGuard network) (m : ClusterSnapshot)
        (req : ListClusterSnapshotsRequest) (resp : ListClusterSnapshotsResponse)
        (agent caller : Context) (s : db.State)
        → c.enable ≡ false
        → (guard_of network c started).0 ≡ ok guard
        → (worker_guard_of network c worker_started).0 ≡ ok worker_guard
        → IsIndexed (db.tables s).snapshots
        → (update_entry
            (row_of default_info)
            (registered default_cluster_id (db.tables s).snapshots)).tenant
          ≡ default_tenant_id
        → (intercept_worker network worker_guard
            (worker_handler worker_guard)
            agent
            (request (cluster_snapshot m))
            s).0
          ≡ ok tt
        → (intercept network guard usage query_handler caller req
            (intercept_worker network worker_guard
              (worker_handler worker_guard)
              agent
              (request (cluster_snapshot m))
              s).1).0
          ≡ ok resp
        → Shows db lawful codec exact fake_user default_info m req
            (db.tables s)
            (db.tables
              (intercept_worker network worker_guard
                (worker_handler worker_guard)
                agent
                (request (cluster_snapshot m))
                s).1)
            resp
    standalone-Shows c started worker_started guard worker_guard m req resp agent caller s off g w x
          tenant sent shown =
        let sends = λ (v : WorkerGuard network).
          intercept_worker network v (worker_handler v) agent (request (cluster_snapshot m)) s in
        let answers = λ (v : Guard network) (z : db.State).
          (intercept network v usage query_handler caller req z).0 in
        subst
          (λ v.
            (sends v).0 ≡ ok tt
            → answers fake (sends v).1 ≡ ok resp
            → Shows db lawful codec exact fake_user default_info m req (db.tables s)
                (db.tables (sends v).1) resp)
          (worker_guard_of-unguarded c worker_started worker_guard off w)
          (unguarded-Shows m req resp agent caller s x tenant) sent
          (ap (λ v. answers v (sends worker_guard).1) (guard_of-fake c started guard off g) ∙ shown)
