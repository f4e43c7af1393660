-- ===== src/Server/Usages.antt =====
-- server/internal/server/gpu_usages.go: the values of one interval.
pub mod Means
pub mod Written
pub mod Listed
pub mod Keys
pub mod Answer
pub mod Hours
pub mod Handler
use cluster_monitor.Prelude.{String, Bool, Option, none, some, List, [], ◌∷◌, if◌then◌else◌}
use cluster_monitor.Prelude.Int.{ℤ, pos, ◌+ℤ◌, ltb_ℤ, int32, int64}
use cluster_monitor.Prelude.Order.{string_ord, pair_ord}
use cluster_monitor.Go.Result.{Result, ok, map_result, ◌>>=◌}
use cluster_monitor.Go.Map.{GoMap, lookup, keys}
use cluster_monitor.Go.Sort.{sort}
use cluster_monitor.Go.Float.{Float32}
use cluster_monitor.Api.{GpuNode, GpuTelemetry, UsageValue}
use cluster_monitor.Store.Rows.{Bytes, GpuTelemetryHistory}
use cluster_monitor.Server.Tally.{Figures, tally, note_keys}
use cluster_monitor.Server.Snapshots.{name_of, divide, to_gb}

-- `clusterNode`: the name of a cluster and that of a node, compared in this order
abbrev pub ClusterNode : Type 0
ClusterNode = String × String

-- `max(a, b)` of two int64
abbrev pub max_int : ℤ → ℤ → ℤ
max_int a b = if ltb_ℤ a b then b else a

module _ (float : Float32) where
  open float use {Carrier, zero, plus, maximum, of_int}

  -- The local type `stat` of `calculateGPUUsageValues`
  pub record Stat : Type 0 where
    pub hs_count : ℤ
    pub max_gpu_used : Carrier
    pub avg_gpu_used : Carrier
    pub max_gpu_memory_used : ℤ
    pub avg_gpu_memory_used : ℤ

  abbrev pub no_stat : Stat
  no_stat = record {
    hs_count = pos 0;
    max_gpu_used = zero;
    avg_gpu_used = zero;
    max_gpu_memory_used = pos 0;
    avg_gpu_memory_used = pos 0;
  }

  unfoldable pub count_history : Stat → Stat
  count_history s = record s { hs_count = int32 (s.hs_count +ℤ pos 1) }

  unfoldable pub add_node : GpuNode Carrier → Stat → Stat
  add_node node s = record s {
    max_gpu_used = maximum s.max_gpu_used node.max_gpu_used;
    avg_gpu_used = plus s.avg_gpu_used node.avg_gpu_used;
    max_gpu_memory_used = max_int s.max_gpu_memory_used node.max_gpu_memory_used;
    avg_gpu_memory_used = int64 (s.avg_gpu_memory_used +ℤ node.avg_gpu_memory_used);
  }

  abbrev pub usage_figures : Figures (GpuNode Carrier) Stat
  usage_figures = record { fresh = no_stat; count = count_history; add = add_node }

  -- the body of the loop that divides by the number of histories
  unfoldable pub average : Stat → Result Stat
  unfolding divide
  average s = do
    memory ← divide 63 s.avg_gpu_memory_used s.hs_count
    ok (record s {
      avg_gpu_used = float.divide s.avg_gpu_used (of_int s.hs_count);
      avg_gpu_memory_used = memory;
    })

  unfoldable pub averages : GoMap ClusterNode Stat → Result (GoMap ClusterNode Stat)
  unfolding average
  averages [] = ok []
  averages ((k, s) ∷ stats) = do s' ← average s; stats' ← averages stats; ok ((k, s') ∷ stats')

  -- `float32(m) / float32(toGB)`
  abbrev pub in_gb : ℤ → Carrier
  in_gb m = float.divide (of_int m) (of_int to_gb)

  -- the value of one node, present or missing
  unfoldable pub value_of : ClusterNode → Option Stat → UsageValue Carrier
  value_of cn none = record {
    cluster_name = cn.0;
    node_name = cn.1;
    max_gpu_used = zero;
    avg_gpu_used = zero;
    max_gpu_memory_used_gb = zero;
    avg_gpu_memory_used_gb = zero;
  }
  value_of cn (some s) = record {
    cluster_name = cn.0;
    node_name = cn.1;
    max_gpu_used = s.max_gpu_used;
    avg_gpu_used = s.avg_gpu_used;
    max_gpu_memory_used_gb = in_gb s.max_gpu_memory_used;
    avg_gpu_memory_used_gb = in_gb s.avg_gpu_memory_used;
  }

  -- the loop over `allClusterNodes`
  unfoldable pub listed : GoMap ClusterNode Stat → List ClusterNode → List (UsageValue Carrier)
  unfolding value_of
  listed stats [] = []
  listed stats (cn ∷ cns) = value_of cn (lookup cn stats) ∷ listed stats cns

  module _ (unmarshal : Bytes → Result (GpuTelemetry Carrier)) (names : GoMap String String) where
    abbrev pub nodes_of : GpuTelemetryHistory → Result (List (GpuNode Carrier))
    nodes_of h = map_result (λ t. t.nodes) (unmarshal h.message)

    abbrev pub key_of : GpuTelemetryHistory → GpuNode Carrier → Result ClusterNode
    key_of h node = map_result (λ cname. (cname, node.name)) (name_of (lookup h.cluster_id names))

    -- `getAllClusterNodes` looks the cluster up before it visits the nodes.
    abbrev pub nodes_of_known : GpuTelemetryHistory → Result (List (GpuNode Carrier))
    nodes_of_known h = do nodes ← nodes_of h; cname ← name_of (lookup h.cluster_id names); ok nodes

    -- `getAllClusterNodes`
    unfoldable pub get_all_cluster_nodes : List GpuTelemetryHistory → Result (List ClusterNode)
    unfolding note_keys sort
    get_all_cluster_nodes hs = do
      cn_map ← note_keys nodes_of_known key_of [] hs
      ok (sort (keys cn_map))

    -- `calculateGPUUsageValues`
    unfoldable pub calculate_gpu_usage_values :
        List ClusterNode → List GpuTelemetryHistory → Result (List (UsageValue Carrier))
    unfolding tally averages listed
    calculate_gpu_usage_values all_cluster_nodes hs = do
      sums ← tally usage_figures nodes_of key_of [] hs
      stats ← averages sums
      ok (listed stats all_cluster_nodes)
