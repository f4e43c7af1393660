-- ===== src/Tests/Command.antt =====
-- Runs of the command of the agent, on libraries that count their calls.
use cluster_monitor.Agent.Snapshot.{count_pods, collect_nodes}
use cluster_monitor.Prelude.Order.{◌==◌, string_ord}
use mathlib.Core.List.{Memᴰ}
use cluster_monitor.Api.{Payload, cluster_snapshot}
use cluster_monitor.Agent.Loop.{request}
use cluster_monitor.Agent.Snapshot.Collect as Snapshot
use cluster_monitor.Agent.Command.Requests.{collectors_of-valid}
use cluster_monitor.Server.Telemetry.{send_cluster_telemetry}
use cluster_monitor.Tests.Telemetry.{codec, agent}
use cluster_monitor.Tests.Memory.{memory}
use cluster_monitor.Prelude.{
  some, ℕ, none, if◌then◌else◌, ◌≡◌, ◌≢◌, refl, String, Bool, true, false, inl, inr, [], ◌∷◌,
}
use cluster_monitor.Prelude.Int.{ℤ}
use cluster_monitor.Go.Result.{for_each, ok, err, Error, invalid_argument}
use cluster_monitor.Go.Exec.{Exec, ◌>>=◌}
use cluster_monitor.Agent.Kube.{Client}
use cluster_monitor.Agent.Dcgm.{Prometheus}
use cluster_monitor.Agent.Config.{validate}
use cluster_monitor.Agent.Config.Laws.{IsComplete}
use cluster_monitor.Agent.Command.{Platform, collectors_of, parse, run_cmd}
use cluster_monitor.Agent.Command.Laws.{run_cmd-invalid}
use cluster_monitor.Tests.Agent.{quantities}
use cluster_monitor.Tests.Config.{status, agent_config, unnamed_config}
use cluster_monitor.Tests.Metrics.{float}
use cluster_monitor.Tests.Samples.{moment, tables}

abbrev client : Client ℤ
client = record { State = ℕ; list_nodes = λ selector s. (ok [], s); list_pods = λ s. (ok [], s) }

abbrev done : {A : Type 0} → A → Exec ℕ A
done a s = (ok a, ℕ.suc s)

abbrev prom : Prometheus ℕ ℕ
prom = record {
  now = λ s. (moment 0, s);
  query_range = λ name r s. (ok (record { is_matrix = false; as_matrix = none }), s);
}

-- The file at "a" has the configuration that is complete, and every other file the other one.
abbrev platform : Platform status ℕ ℕ ℕ
platform = record {
  Bytes = Bool;
  Conn = String;
  RestConfig = Unit {0};
  read_file = λ path. done (path == "a");
  unmarshal = λ b. ok (if b then agent_config else unnamed_config);
  validate_cluster_registration_key = done tt;
  in_cluster_config = done tt;
  new_manager = λ c o. done tt;
  start_beacon_sender = λ c o. done tt;
  new_prometheus = λ url. ok prom;
  new_client = λ addr o. done addr;
  add = λ r. done tt;
  add_healthz_check = done tt;
  start = done tt;
}

run_runs : run_cmd float quantities client platform "a" 0 ≡ (ok tt, 9)
unfolding run_cmd ◌>>=◌ validate
run_runs = refl

parse_runs : (parse float quantities client platform "b" 0).0 ≡ ok unnamed_config
unfolding parse ◌>>=◌
parse_runs = refl

unnamed_config-invalid : ¬ IsComplete status unnamed_config
unnamed_config-invalid v = elim v.election_set [ inl e ↦ cc | inr ne ↦ ne refl ]

run_cmd-invalid_example :
    ((run_cmd float quantities client platform "b" 0).0 ≢ ok tt)
    × ((run_cmd float quantities client platform "b" 0).1
        ≡ (parse float quantities client platform "b" 0).1)
run_cmd-invalid_example =
    run_cmd-invalid float quantities client platform "b" 0 unnamed_config parse_runs
      unnamed_config-invalid

abbrev payload : Payload ℕ
payload = cluster_snapshot (record { nodes = [] })

collectors_chosen :
    collectors_of float quantities client platform "" []
    ≡ ok (Snapshot.collect quantities client [] ℕ ∷ [])
unfolding collectors_of
collectors_chosen = refl

collector_runs : (Snapshot.collect quantities client [] ℕ 0).0 ≡ ok payload
unfolding Snapshot.collect ◌>>=◌ collect_nodes for_each count_pods
collector_runs = refl

collectors_of-valid_example :
    (send_cluster_telemetry (memory (moment 0)) codec true (some agent) (request payload) tables).0
    ≢ err (Error.status invalid_argument)
collectors_of-valid_example =
    collectors_of-valid float quantities client platform (memory (moment 0)) codec "" []
      (Snapshot.collect quantities client [] ℕ ∷ []) (Snapshot.collect quantities client [] ℕ) 0
      payload true (some agent) tables collectors_chosen (Memᴰ.head refl) collector_runs
