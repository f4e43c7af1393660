-- ===== src/Agent/Telemetry.antt =====
-- agent/internal/collector/gpu_telemetry.go: the GPU telemetry of the nodes of a cluster.
pub mod Collect
pub mod Hosts
pub mod Entries
pub mod Samples
pub mod Laws
use cluster_monitor.Prelude.{
  String, Option, none, some, List, [], ◌∷◌, ◌++◌, foldl, length, if◌then◌else◌,
}
use cluster_monitor.Prelude.Int.{ℤ, pos}
use cluster_monitor.Prelude.Order.{◌==◌, string_ord, int_ord}
use cluster_monitor.Go.Float.{Float64}
use cluster_monitor.Go.Map.{GoMap, lookup, assign, keys, or_nil}
use cluster_monitor.Api.{GpuNode}
use cluster_monitor.Agent.Kube.{Node}
use cluster_monitor.Agent.Dcgm.{DcgmMetricKey, SamplePair, DcgmMetricSamples}

abbrev pub label_hostname : String
label_hostname = "kubernetes.io/hostname"

module _ {Q : Type 0} where
  -- a node under its host name, if it has one
  abbrev pub assign_host : Option String → Node Q → GoMap String (Node Q) → GoMap String (Node Q)
  assign_host none node m = m
  assign_host (some hostname) node m = assign hostname node m

  -- `buildHostnameToNodes`, behind the call of the client
  unfoldable pub nodes_by_hostname : GoMap String (Node Q) → List (Node Q) → GoMap String (Node Q)
  unfolding lookup assign
  nodes_by_hostname m [] = m
  nodes_by_hostname m (node ∷ nodes) =
      nodes_by_hostname (assign_host (lookup label_hostname node.labels) node m) nodes

-- The samples of a host, by their timestamps.
abbrev pub Samples : Type 0 → Type 0
Samples F = GoMap ℤ (List F)

abbrev pub or_fresh : {F : Type 0} → Option (Samples F) → Samples F
or_fresh none = []
or_fresh (some m) = m

module _ {F : Type 0} where
  -- `for _, s := range samples { m[s.Timestamp] = append(m[s.Timestamp], float64(s.Value)) }`
  unfoldable pub add_samples : Samples F → List (SamplePair F) → Samples F
  unfolding lookup assign
  add_samples m [] = m
  add_samples m (s ∷ ss) =
      add_samples (assign s.timestamp (or_nil (lookup s.timestamp m) ++ s.value ∷ []) m) ss

  -- one key of the samples
  unfoldable pub add_key :
      DcgmMetricKey → List (SamplePair F) → GoMap String (Samples F) → GoMap String (Samples F)
  unfolding add_samples lookup assign
  add_key k ss m =
      if k.pod == ""
      then m
      else assign k.hostname (add_samples (or_fresh (lookup k.hostname m)) ss) m

  -- `buildSampleMapByHost`
  unfoldable pub samples_by_host :
      GoMap String (Samples F) → DcgmMetricSamples F → GoMap String (Samples F)
  unfolding add_key
  samples_by_host m [] = m
  samples_by_host m ((k, ss) ∷ rest) = samples_by_host (add_key k ss m) rest

module _ {F : Type 0} (float : Float64 F) where
  open float use {Carrier, zero, plus, maximum, divide, multiply, of_int, to_float32, to_int64}

  -- `for _, v := range samples { total += v }`
  abbrev pub total_of : List Carrier → Carrier
  total_of = foldl plus zero

  -- `maxV = max(maxV, total); avgV += total`, for each timestamp
  unfoldable pub max_and_sum : Carrier × Carrier → Samples Carrier → Carrier × Carrier
  max_and_sum acc [] = acc
  max_and_sum (max_v, avg_v) ((t, samples) ∷ rest) =
      max_and_sum (maximum max_v (total_of samples), plus avg_v (total_of samples)) rest

  -- `computeMaxAvg`
  unfoldable pub compute_max_avg : Samples Carrier → Carrier × Carrier
  unfolding max_and_sum
  compute_max_avg samples_by_time =
      let (max_v, avg_v) = max_and_sum (zero, zero) samples_by_time in
      (max_v, divide avg_v (of_int (pos (length samples_by_time))))

  -- the two figures of a host, which are zero where it has no samples
  unfoldable pub figures_at : Option (Samples Carrier) → Carrier × Carrier
  unfolding compute_max_avg
  figures_at none = (zero, zero)
  figures_at (some samples_by_time) = compute_max_avg samples_by_time

  -- `int64(x * 1024 * 1024)`
  abbrev pub in_bytes : Carrier → ℤ
  in_bytes x = to_int64 (multiply (multiply x (of_int (pos 1024))) (of_int (pos 1024)))

  -- `float32(x / 100.0)`
  abbrev pub in_units : Carrier → F
  in_units x = to_float32 (divide x (of_int (pos 100)))

  module _ {Q : Type 0}
      (gpu_util_by_host gpu_mem_used_by_host : GoMap String (Samples Carrier)) where
    -- the entry of a node, from the samples of its host
    unfoldable pub telemetry_of : String → Node Q → GpuNode F
    unfolding figures_at lookup
    telemetry_of hostname node =
        let util = figures_at (lookup hostname gpu_util_by_host) in
        let mem = figures_at (lookup hostname gpu_mem_used_by_host) in
        record {
          name = node.name;
          max_gpu_used = in_units util.0;
          avg_gpu_used = in_units util.1;
          max_gpu_memory_used = in_bytes mem.0;
          avg_gpu_memory_used = in_bytes mem.1;
        }

    -- a host, whose node is selected or not
    abbrev pub telemetry_at : String → Option (Node Q) → List (GpuNode F) → List (GpuNode F)
    telemetry_at hostname none nodes = nodes
    telemetry_at hostname (some node) nodes = telemetry_of hostname node ∷ nodes

    -- `for hostname := range hostnames`
    unfoldable pub telemetry_nodes : GoMap String (Node Q) → List String → List (GpuNode F)
    unfolding telemetry_of lookup
    telemetry_nodes nodes [] = []
    telemetry_nodes nodes (hostname ∷ hostnames) =
        telemetry_at hostname (lookup hostname nodes) (telemetry_nodes nodes hostnames)

-- `for hostname := range m { hostnames[hostname] = struct{}{} }`
unfoldable pub note_hosts : List String → GoMap String (Unit {0}) → GoMap String (Unit {0})
unfolding assign
note_hosts [] hostnames = hostnames
note_hosts (h ∷ hs) hostnames = note_hosts hs (assign h tt hostnames)

module _ {F : Type 0} (float : Float64 F) {Q : Type 0} where
  -- `buildGPUTelemetryMessage`, which returns no error
  unfoldable pub build_gpu_telemetry_message :
      GoMap String (Samples float.Carrier)
      → GoMap String (Samples float.Carrier)
      → GoMap String (Node Q)
      → List (GpuNode F)
  unfolding note_hosts telemetry_nodes
  build_gpu_telemetry_message util mem nodes =
      let hostnames = note_hosts (keys mem) (note_hosts (keys util) []) in
      telemetry_nodes float util mem nodes (keys hostnames)
