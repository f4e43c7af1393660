-- ===== src/Tests/Config.antt =====
-- Tests of the configurations.
use cluster_monitor.Prelude.{◌≡◌, ◌↔◌, refl, Bool, true, false, []}
use cluster_monitor.Prelude.Int.{pos, negsuc}
use cluster_monitor.Go.Result.{ok, err, plain}
use cluster_monitor.Agent.Config as Agent
use cluster_monitor.Server.Config as Server
use cluster_monitor.Server.Config.Laws as ServerLaws

-- Libraries that are content with everything.
abbrev pub status : Agent.Status
status = record { Config = Bool; enable = λ c. c; validate = λ c. ok tt }

abbrev pub agent_config : Agent.Config status
agent_config = record {
  cluster_monitor_server_worker_service_addr = "server:8080";
  target_node_selector = [];
  gpu_telemetry = record { prometheus_url = "" };
  kubernetes_manager = record {
    enable_leader_election = true;
    leader_election_id = "agent";
    metrics_bind_address = "";
    health_bind_address = "";
    pprof_bind_address = "";
  };
  worker = record { tls = record { enable = false } };
  component_status_sender = false;
}

abbrev pub unnamed_config : Agent.Config status
unnamed_config = record agent_config {
  kubernetes_manager = record agent_config.kubernetes_manager { leader_election_id = "" };
}

agent_config_runs : Agent.validate status agent_config ≡ ok tt
unfolding Agent.validate
agent_config_runs = refl

unnamed_config_run : Agent.validate status unnamed_config ≡ err plain
unfolding Agent.validate
unnamed_config_run = refl

abbrev pub libraries : Server.Libraries
libraries = record {
  DatabaseConfig = Unit {0};
  validate_database = λ c. err plain;
  SenderConfig = Bool;
  sender_enable = λ c. c;
  validate_sender = λ c. ok tt;
}

abbrev pub server_config : Bool → Server.Config libraries
server_config standalone = record {
  http_port = pos 8080;
  grpc_port = pos 8081;
  worker_service_grpc_port = pos 8082;
  database = tt;
  auth_config = record { enable = false; rbac_internal_server_addr = "" };
  usage_sender = false;
  debug = record { standalone = standalone; sqlite_path = "/tmp/db" };
}

-- A server that stands alone needs no database.
server_configs_run :
    (Server.validate libraries (server_config true) ≡ ok tt)
    × (Server.validate libraries (server_config false) ≡ err plain)
    × (Server.validate libraries (record (server_config true) { grpc_port = negsuc 0 }) ≡ err plain)
unfolding Server.validate
server_configs_run = (refl, refl, refl)

validate-IsValid_example :
    (Server.validate libraries (server_config true) ≡ ok tt)
    ↔ ServerLaws.IsValid libraries (server_config true)
validate-IsValid_example = ServerLaws.validate-IsValid libraries (server_config true)
