-- ===== src/Agent/Config.antt =====
-- agent/internal/config/config.go: the configuration of the agent. Parsing is a library's.
pub mod Laws
use cluster_monitor.Prelude.{String, Bool, true, false, ◌&&◌, if◌then◌else◌}
use cluster_monitor.Prelude.Order.{◌==◌, string_ord}
use cluster_monitor.Go.Result.{Result, ok, err, plain, or_plain, ◌>>◌}
use cluster_monitor.Go.Map.{GoMap}

pub record KubernetesManagerConfig : Type 0 where
  pub enable_leader_election : Bool
  pub leader_election_id : String
  pub metrics_bind_address : String
  pub health_bind_address : String
  pub pprof_bind_address : String

unfoldable pub validate_manager : KubernetesManagerConfig → Result (Unit {0})
validate_manager c =
    if c.enable_leader_election && (c.leader_election_id == "") then err plain else ok tt

pub record WorkerTlsConfig : Type 0 where
  pub enable : Bool

pub record WorkerConfig : Type 0 where
  pub tls : WorkerTlsConfig

pub record GpuTelemetryConfig : Type 0 where
  pub prometheus_url : String

-- `status.Config` of cluster-manager, which is not part of the repository, with its `Validate`
pub record Status : Type 1 where
  pub Config : Type 0
  pub enable : Config → Bool
  pub validate : Config → Result (Unit {0})

module _ (status : Status) where
  pub record Config : Type 0 where
    pub cluster_monitor_server_worker_service_addr : String
    pub target_node_selector : GoMap String String
    pub gpu_telemetry : GpuTelemetryConfig
    pub kubernetes_manager : KubernetesManagerConfig
    pub worker : WorkerConfig
    pub component_status_sender : status.Config

  -- `Validate`
  unfoldable pub validate : Config → Result (Unit {0})
  unfolding validate_manager
  validate c = if c.cluster_monitor_server_worker_service_addr == "" then err plain else (do
    or_plain (validate_manager c.kubernetes_manager)
    or_plain (status.validate c.component_status_sender))
