-- ===== src/Agent/Command.antt =====
-- agent/cmd/run.go, with what it calls to set up the collector and the sender. What the libraries
-- do, the command line and the log are no code of the repository.
pub mod Laws
pub mod Requests
use cluster_monitor.Prelude.{String, Bool, true, false, List, [], ◌∷◌, if◌then◌else◌}
use cluster_monitor.Prelude.Int.{ℤ, pos}
use cluster_monitor.Prelude.Order.{◌==◌, string_ord}
use cluster_monitor.Go.Result.{Result, ok, or_plain, map_result}
use cluster_monitor.Go.Exec.{Exec, lift, ◌>>=◌, ◌>>◌}
use cluster_monitor.Go.Float.{Float64}
use cluster_monitor.Go.Map.{GoMap}
use cluster_monitor.Api.{Payload}
use cluster_monitor.Agent.Kube.{Quantities, Client}
use cluster_monitor.Agent.Dcgm.{Prometheus}
use cluster_monitor.Agent.Snapshot.Collect as Snapshot
use cluster_monitor.Agent.Telemetry.Collect as Telemetry
use cluster_monitor.Agent.Config.{Status, Config, WorkerConfig, validate}

-- in seconds
abbrev pub default_update_interval : ℤ
default_update_interval = pos 600

-- `grpc.DialOption`
pub data DialOption : Type 0 where
  tls insecure : DialOption

abbrev pub grpc_option : WorkerConfig → DialOption
grpc_option c = if c.tls.enable then tls else insecure

-- `ctrl.Options`
pub record Options : Type 0 where
  pub leader_election : Bool
  pub leader_election_id : String
  pub metrics_bind_address : String
  pub health_probe_bind_address : String
  pub pprof_bind_address : String

-- What is added to the manager: the collector with its collectors, which ticks, and the sender, with
-- its connection.
pub data Runnable (S F Conn : Type 0) : Type 0 where
  collector : List (Exec S (Payload F)) → ℤ → Runnable S F Conn
  sender : Conn → Runnable S F Conn

abbrev pub options_of : {status : Status} → Config status → Options
options_of c = record {
  leader_election = c.kubernetes_manager.enable_leader_election;
  leader_election_id = c.kubernetes_manager.leader_election_id;
  metrics_bind_address = c.kubernetes_manager.metrics_bind_address;
  health_probe_bind_address = c.kubernetes_manager.health_bind_address;
  pprof_bind_address = c.kubernetes_manager.pprof_bind_address;
}

module _ (status : Status) (S F D : Type 0) where
  -- The libraries: the file system and yaml, controller-runtime, grpc, rbac-manager and
  -- cluster-manager.
  pub record Platform : Type 1 where
    pub Bytes : Type 0
    pub Conn : Type 0
    pub RestConfig : Type 0
    pub read_file : String → Exec S Bytes
    pub unmarshal : Bytes → Result (Config status)
    pub validate_cluster_registration_key : Exec S (Unit {0})
    pub in_cluster_config : Exec S RestConfig
    pub new_manager : RestConfig → Options → Exec S (Unit {0})
    pub start_beacon_sender : status.Config → DialOption → Exec S (Unit {0})
    pub new_prometheus : String → Result (Prometheus S D)
    pub new_client : String → DialOption → Exec S Conn
    pub add : Runnable S F Conn → Exec S (Unit {0})
    pub add_healthz_check : Exec S (Unit {0})
    pub start : Exec S (Unit {0})

module _ {status : Status} {F : Type 0} (float : Float64 F) (quantities : Quantities)
    (client : Client quantities.Quantity)
    (platform : Platform status client.State F float.Carrier) where
  -- `config.Parse`
  unfoldable pub parse : String → Exec client.State (Config status)
  parse path = do
    b ← λ s. (or_plain (platform.read_file path s).0, (platform.read_file path s).1)
    lift (or_plain (platform.unmarshal b))

  -- the collectors of `SetupWithManager`
  unfoldable pub collectors_of :
      String → GoMap String String → Result (List (Exec client.State (Payload F)))
  collectors_of prometheus_url selector =
      let snapshots = Snapshot.collect quantities client selector F in
      if prometheus_url == ""
      then ok (snapshots ∷ [])
      else map_result
          (λ prom.
            snapshots ∷ Telemetry.collect float client prom selector default_update_interval ∷ [])
          (platform.new_prometheus prometheus_url)

  -- `SetupWithManager` of the collector, behind `New`
  unfoldable pub set_up_collector : String → GoMap String String → Exec client.State (Unit {0})
  unfolding collectors_of
  set_up_collector prometheus_url selector = do
    collectors ← lift (collectors_of prometheus_url selector)
    platform.add (collector collectors default_update_interval)

  -- the component status sender, where it is enabled
  unfoldable pub start_status : Config status → Exec client.State (Unit {0})
  start_status c =
      if status.enable c.component_status_sender
      then platform.start_beacon_sender c.component_status_sender (grpc_option c.worker)
      else lift (ok tt)

  -- the rest of `run`, from the connection of the sender on
  unfoldable pub run_sender : Config status → Exec client.State (Unit {0})
  run_sender c = do
    conn ← platform.new_client c.cluster_monitor_server_worker_service_addr (grpc_option c.worker)
    platform.add (sender conn)
    platform.add_healthz_check
    platform.start

  -- `run`
  unfoldable pub run : Config status → Exec client.State (Unit {0})
  unfolding start_status set_up_collector run_sender
  run c = do
    platform.validate_cluster_registration_key
    rest_config ← platform.in_cluster_config
    platform.new_manager rest_config (options_of c)
    start_status c
    set_up_collector c.gpu_telemetry.prometheus_url c.target_node_selector
    run_sender c

  -- `RunE` of the command
  unfoldable pub run_cmd : String → Exec client.State (Unit {0})
  unfolding parse run
  run_cmd path = do c ← parse path; lift (validate status c); run c
