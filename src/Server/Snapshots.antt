-- ===== src/Server/Snapshots.antt =====
-- server/internal/server/cluster_snapshot.go: the values of one interval.
pub mod Iteration
pub mod Averages
pub mod Grouped
pub mod Keys
pub mod Answer
pub mod Hours
pub mod Ungrouped
pub mod Rekeyed
pub mod Order
pub mod Handler
use cluster_monitor.Prelude.{
  ℕ, ◌^◌, String, Bool, true, Option, none, some, List, [], ◌∷◌, map, if◌then◌else◌,
}
use cluster_monitor.Prelude.Int.{ℤ, pos, ◌+ℤ◌, wrap, int32, int64, quot}
use cluster_monitor.Prelude.Order.{◌==◌, int_ord, string_ord}
use cluster_monitor.Go.Result.{
  Result, ok, err, panics, plain, status, invalid_argument, map_result, ◌>>=◌,
}
use cluster_monitor.Go.Map.{GoMap, lookup, assign, keys, values}
use cluster_monitor.Go.Sort.{sort}
use cluster_monitor.Api.{
  GroupBy, unspecified, cluster, product, unknown, SnapshotNode, NvidiaAttributes, ClusterSnapshot,
  SnapshotValue,
}
use cluster_monitor.Store.Rows.{Bytes, ClusterSnapshotHistory}
use cluster_monitor.Server.Tally.{Figures, tally, note_keys}

-- The local type `stat` of `calculateSnapshotValues`
pub record Stat : Type 0 where
  pub hs_count : ℤ
  pub node_count : ℤ
  pub gpu_capacity : ℤ
  pub memory_capacity : ℤ
  pub gpu_occupancy : ℤ
  pub pod_count : ℤ

abbrev pub to_gb : ℤ
to_gb = pos 1073741824

abbrev pub no_stat : Stat
no_stat = record {
  hs_count = pos 0;
  node_count = pos 0;
  gpu_capacity = pos 0;
  memory_capacity = pos 0;
  gpu_occupancy = pos 0;
  pod_count = pos 0;
}

unfoldable pub count_history : Stat → Stat
count_history s = record s { hs_count = int32 (s.hs_count +ℤ pos 1) }

unfoldable pub add_node : SnapshotNode → Stat → Stat
add_node node s = record s {
  node_count = int32 (s.node_count +ℤ pos 1);
  gpu_capacity = int32 (s.gpu_capacity +ℤ node.gpu_capacity);
  memory_capacity = int64 (s.memory_capacity +ℤ node.memory_capacity);
  gpu_occupancy = int32 (s.gpu_occupancy +ℤ node.gpu_occupancy);
  pod_count = int32 (s.pod_count +ℤ node.pod_count);
}

abbrev pub snapshot_figures : Figures SnapshotNode Stat
snapshot_figures = record { fresh = no_stat; count = count_history; add = add_node }

-- `a / b` at `w + 1` bits; a division by zero panics.
unfoldable pub divide : ℕ → ℤ → ℤ → Result ℤ
divide w a b = if b == pos 0 then panics else ok (wrap w (quot a b))

-- the body of the loop that divides by the number of histories
unfoldable pub average : Stat → Result Stat
unfolding divide
average s = do
  nodes ← divide 31 s.node_count s.hs_count
  gpus ← divide 31 s.gpu_capacity s.hs_count
  memory ← divide 63 s.memory_capacity s.hs_count
  occupied ← divide 31 s.gpu_occupancy s.hs_count
  pods ← divide 31 s.pod_count s.hs_count
  ok (record s {
    node_count = nodes;
    gpu_capacity = gpus;
    memory_capacity = memory;
    gpu_occupancy = occupied;
    pod_count = pods;
  })

unfoldable pub averages : GoMap String Stat → Result (GoMap String Stat)
unfolding average
averages [] = ok []
averages ((k, s) ∷ stats) = do s' ← average s; stats' ← averages stats; ok ((k, s') ∷ stats')

abbrev pub no_value : String → SnapshotValue
no_value gval = record {
  grouping_value = gval;
  node_count = pos 0;
  gpu_capacity = pos 0;
  memory_capacity_gb = pos 0;
  gpu_occupancy = pos 0;
  pod_count = pos 0;
}

-- `val.NodeCount += s.nodeCount` and so on
unfoldable pub add_stat : Stat → SnapshotValue → SnapshotValue
add_stat s val = record val {
  node_count = int32 (val.node_count +ℤ s.node_count);
  gpu_capacity = int32 (val.gpu_capacity +ℤ s.gpu_capacity);
  memory_capacity_gb = int32 (val.memory_capacity_gb +ℤ int32 (quot s.memory_capacity to_gb));
  gpu_occupancy = int32 (val.gpu_occupancy +ℤ s.gpu_occupancy);
  pod_count = int32 (val.pod_count +ℤ s.pod_count);
}

-- the loop over all stats where there is no grouping
unfoldable pub aggregate : SnapshotValue → List Stat → SnapshotValue
unfolding add_stat
aggregate val [] = val
aggregate val (s ∷ stats) = aggregate (add_stat s val) stats

-- the value of one key, present or missing
unfoldable pub value_of : String → Option Stat → SnapshotValue
value_of gval none = no_value gval
value_of gval (some s) = record {
  grouping_value = gval;
  node_count = s.node_count;
  gpu_capacity = s.gpu_capacity;
  memory_capacity_gb = int32 (quot s.memory_capacity to_gb);
  gpu_occupancy = s.gpu_occupancy;
  pod_count = s.pod_count;
}

-- `clusterNamesByID[clusterID]`
abbrev pub name_of : Option String → Result String
name_of none = err plain
name_of (some cname) = ok cname

abbrev pub product_of : Option NvidiaAttributes → Result String
product_of none = ok "unknown"
product_of (some attributes) = ok attributes.product

-- `getGroupingValue`
unfoldable pub get_grouping_value :
    String → SnapshotNode → GroupBy → GoMap String String → Result String
get_grouping_value cluster_id node unspecified names = name_of (lookup cluster_id names)
get_grouping_value cluster_id node cluster names = name_of (lookup cluster_id names)
get_grouping_value cluster_id node product names = product_of node.nvidia_attributes
get_grouping_value cluster_id node (unknown n) names = err (status invalid_argument)

-- the loop over `allGroupingVales`
unfoldable pub grouped : GoMap String Stat → List String → List SnapshotValue
unfolding value_of
grouped stats [] = []
grouped stats (gval ∷ gvals) = value_of gval (lookup gval stats) ∷ grouped stats gvals

-- the values of an interval, from the averages
unfoldable pub respond : GroupBy → List String → GoMap String Stat → List SnapshotValue
unfolding aggregate grouped
respond unspecified gvals stats = aggregate (no_value "") (values stats) ∷ []
respond _ gvals stats = grouped stats gvals

abbrev pub nodes_of :
    (Bytes → Result ClusterSnapshot) → ClusterSnapshotHistory → Result (List SnapshotNode)
nodes_of unmarshal h = map_result (λ s. s.nodes) (unmarshal h.message)

abbrev pub key_of :
    GroupBy → GoMap String String → ClusterSnapshotHistory → SnapshotNode → Result String
key_of group_by names h node = get_grouping_value h.cluster_id node group_by names

module _ (unmarshal : Bytes → Result ClusterSnapshot) (group_by : GroupBy)
    (names : GoMap String String) where
  -- `getAllGroupingValues`
  unfoldable pub get_all_grouping_values : List ClusterSnapshotHistory → Result (List String)
  unfolding note_keys sort get_grouping_value
  get_all_grouping_values hs = do
    gval_map ← note_keys (nodes_of unmarshal) (key_of group_by names) [] hs
    ok (sort (keys gval_map))

  -- `calculateSnapshotValues`
  unfoldable pub calculate_snapshot_values :
      List String → List ClusterSnapshotHistory → Result (List SnapshotValue)
  calculate_snapshot_values all_gvals hs = do
    sums ← tally snapshot_figures (nodes_of unmarshal) (key_of group_by names) [] hs
    stats ← averages sums
    ok (respond group_by all_gvals stats)
