-- ===== src/Tests/Metrics.antt =====
-- Tests of the agent's GPU telemetry, on two hosts with three streams.
use cluster_monitor.Go.Strconv.{parse_int}
use mathlib.Core.List.{Perm}
use cluster_monitor.Prelude.{
  ℕ, ◌≡◌, refl, String, Bool, true, false, some, List, [], ◌∷◌, ◌+◌, ◌*◌, ◌/◌, leb, if◌then◌else◌,
  ◌||◌, ◌&&◌, none, map,
}
use cluster_monitor.Prelude.Int.{ℤ, pos, pos_part}
use cluster_monitor.Prelude.Order.{◌==◌, string_ord, int_ord}
use cluster_monitor.Go.Result.{ok, err, plain, map_result, traverse}
use cluster_monitor.Go.Float.{Float64}
use cluster_monitor.Go.Keys.{has, is_some}
use cluster_monitor.Go.Map.{GoMap, keys, lookup, assign, or_nil}
use cluster_monitor.Api.{GpuNode}
use cluster_monitor.Agent.Kube.{Node, Client}
use cluster_monitor.Agent.Dcgm.{
  Metric, DcgmMetricKey, key_ord, new_dcgm_metric_key, SamplePair, SampleStream, Prometheus,
  DcgmMetricSamples, merge_streams, keyed_stream,
}
use cluster_monitor.Agent.Dcgm.Laws.{samples_of, merge_streams-eq-samples_of}
use cluster_monitor.Agent.Telemetry.{
  Samples, samples_by_host, compute_max_avg, build_gpu_telemetry_message, nodes_by_hostname,
}
use cluster_monitor.Agent.Telemetry.Samples.{
  value_list, host_values, samples_by_host-eq-host_values,
}
use cluster_monitor.Agent.Telemetry.Entries.{
  AllSelected, entry_of, build_gpu_telemetry_message-perm,
}
use cluster_monitor.Tests.Samples.{moment}

-- Numbers without fractions.
abbrev pub float : Float64 ℕ
float = record {
  Carrier = ℕ;
  zero = 0;
  plus = λ a b. a + b;
  divide = λ a b. a / b;
  multiply = λ a b. a * b;
  maximum = λ a b. if leb a b then b else a;
  of_int = pos_part;
  to_float32 = λ x. x;
  to_int64 = pos;
}

abbrev metric : String → String → String → Metric
metric host gpu pod = ("Hostname", host) ∷ ("gpu", gpu) ∷ ("exported_pod", pod) ∷ []

abbrev key : String → ℕ → String → DcgmMetricKey
key host gpu pod = record {
  hostname = host;
  gpu = pos gpu;
  namespace = "";
  pod = pod;
  container = "";
}

abbrev sample : ℕ → ℕ → SamplePair ℕ
sample t v = record { timestamp = pos t; value = v }

key_read : new_dcgm_metric_key (metric "h1" "3" "p") ≡ ok (key "h1" 3 "p")
unfolding new_dcgm_metric_key parse_int
key_read = refl

key_refused : new_dcgm_metric_key (metric "h1" "GPU-3" "p") ≡ err plain
unfolding new_dcgm_metric_key parse_int
key_refused = refl

-- Two GPUs of a host, one of them in two streams, and an idle GPU of another.
abbrev streams : List (SampleStream ℕ)
streams =
    record { metric = metric "h1" "0" "p"; samples = sample 1 100 ∷ [] }
    ∷ record { metric = metric "h1" "1" "p"; samples = sample 1 50 ∷ sample 2 70 ∷ [] }
    ∷ record { metric = metric "h1" "0" "p"; samples = sample 2 30 ∷ [] }
    ∷ record { metric = metric "h2" "0" ""; samples = sample 1 10 ∷ [] }
    ∷ []

merge_streams-eq-samples_of_example :
    map_result
      (λ (m : DcgmMetricSamples ℕ). or_nil (lookup (key "h1" 0 "p") m))
      (merge_streams streams)
    ≡ map_result (samples_of (key "h1" 0 "p")) (traverse keyed_stream streams)
merge_streams-eq-samples_of_example = merge_streams-eq-samples_of (key "h1" 0 "p") streams

abbrev merged : DcgmMetricSamples ℕ
merged =
    (key "h1" 0 "p", sample 1 100 ∷ sample 2 30 ∷ [])
    ∷ (key "h1" 1 "p", sample 1 50 ∷ sample 2 70 ∷ [])
    ∷ (key "h2" 0 "", sample 1 10 ∷ [])
    ∷ []

samples_by_host-eq-host_values_example :
    value_list "h1" (pos 1) (samples_by_host [] merged) ≡ host_values "h1" (pos 1) merged
samples_by_host-eq-host_values_example = samples_by_host-eq-host_values "h1" (pos 1) merged

-- Both instants, in the two orders.
abbrev h1_samples : Samples ℕ
h1_samples = (pos 1, 100 ∷ 50 ∷ []) ∷ (pos 2, 30 ∷ 70 ∷ []) ∷ []

h1_grouped : samples_by_host [] merged ≡ ("h1", h1_samples) ∷ []
unfolding samples_by_host
h1_grouped = refl

figures_run : compute_max_avg float h1_samples ≡ (150, 125)
unfolding compute_max_avg
figures_run = refl

abbrev node : String → String → Node ℤ
node name hostname = record {
  name = name;
  labels = ("kubernetes.io/hostname", hostname) ∷ [];
  capacity = [];
}

abbrev nodes : List (Node ℤ)
nodes = node "n0" "h1" ∷ node "n1" "h1" ∷ node "n2" "h2" ∷ []

last_node_run : lookup "h1" (nodes_by_hostname [] nodes) ≡ some (node "n1" "h1")
unfolding nodes_by_hostname lookup assign
last_node_run = refl

abbrev util : GoMap String (Samples ℕ)
util = ("h1", h1_samples) ∷ []

abbrev mem : GoMap String (Samples ℕ)
mem = ("h2", (pos 1, 7 ∷ []) ∷ []) ∷ ("h1", (pos 1, 3 ∷ []) ∷ []) ∷ []

abbrev selected_hosts : List (String × Node ℤ)
selected_hosts = ("h2", node "n2" "h2") ∷ ("h1", node "n1" "h1") ∷ []

same_hosts :
    (g : String)
    → has g (keys selected_hosts)
      ≡ ((has g (keys util) || has g (keys mem)) && is_some (lookup g (nodes_by_hostname [] nodes)))
unfolding nodes_by_hostname lookup assign
same_hosts g = either ("h2" == g) ("h1" == g)
  where
    either :
        (a b : Bool)
        → (a || (b || false)) ≡ (
            ((b || false) || (a || (b || false)))
            && is_some
                (if b then some (node "n1" "h1") else if a then some (node "n2" "h2") else none))
    either true true = refl
    either true false = refl
    either false true = refl
    either false false = refl

all_selected : AllSelected float util mem (nodes_by_hostname [] nodes) selected_hosts
unfolding nodes_by_hostname lookup assign
all_selected = (refl, (refl, tt))

build_gpu_telemetry_message-perm_example :
    Perm
      (build_gpu_telemetry_message float util mem (nodes_by_hostname [] nodes))
      (map (entry_of float util mem (nodes_by_hostname [] nodes)) selected_hosts)
build_gpu_telemetry_message-perm_example =
    build_gpu_telemetry_message-perm float util mem (nodes_by_hostname [] nodes) selected_hosts
      ((refl, tt), (tt, tt)) all_selected same_hosts

abbrev client : Client ℤ
client = record {
  State = Unit {0};
  list_nodes = λ selector s. (ok nodes, s);
  list_pods = λ s. (ok [], s);
}

abbrev prom : Prometheus (Unit {0}) ℕ
prom = record {
  now = λ s. (moment 0, s);
  query_range = λ name r s. (ok (record { is_matrix = true; as_matrix = some streams }), s);
}

abbrev entry : GpuNode ℕ
entry = record {
  name = "n1";
  max_gpu_used = 1;
  avg_gpu_used = 1;
  max_gpu_memory_used = pos 157286400;
  avg_gpu_memory_used = pos 131072000;
}
