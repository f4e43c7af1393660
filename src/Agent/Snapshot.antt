-- ===== src/Agent/Snapshot.antt =====
-- agent/internal/collector/cluster_snapshot.go: the snapshot of a cluster.
pub mod Collect
pub mod Nodes
pub mod Laws
pub mod Bounds
pub mod Exact
use cluster_monitor.Prelude.{String, Option, none, some, List, [], ◌∷◌, if◌then◌else◌}
use cluster_monitor.Prelude.Int.{ℤ, pos, ◌+ℤ◌, int32, int64, times}
use cluster_monitor.Prelude.Order.{◌==◌, string_ord, int_ord}
use cluster_monitor.Go.Result.{Result, ok, err, plain, map_result, for_each, ◌>>=◌}
use cluster_monitor.Go.Map.{GoMap, lookup, assign}
use cluster_monitor.Go.Strconv.{parse_int}
use cluster_monitor.Api.{SnapshotNode}
use cluster_monitor.Agent.Kube.{Quantities, Node, Container, Pod}

abbrev pub nvidia_gpu : String
nvidia_gpu = "nvidia.com/gpu"

abbrev pub pod_running : String
pod_running = "Running"

-- `node.Labels["nvidia.com/gpu.memory"]`, in MiB, as bytes
unfoldable pub memory_of : Option String → Result ℤ
memory_of none = ok (pos 0)
memory_of (some v) = map_result (λ m. int64 (times (int64 (times m 1024)) 1024)) (parse_int v)

-- `node.Labels["nvidia.com/gpu.product"]`
abbrev pub product_of : Option String → String
product_of none = "unknown"
product_of (some v) = v

-- `node.GpuOccupancy += int32(v); node.PodCount++`
unfoldable pub occupy : ℤ → SnapshotNode → SnapshotNode
occupy v node = record node {
  gpu_occupancy = int32 (node.gpu_occupancy +ℤ int32 v);
  pod_count = int32 (node.pod_count +ℤ pos 1);
}

-- a pod that requests `v` GPUs, on a node that was found or not
abbrev pub occupy_at :
    String → ℤ → Option SnapshotNode → GoMap String SnapshotNode → GoMap String SnapshotNode
occupy_at name v none nodes = nodes
occupy_at name v (some node) nodes = assign name (occupy v node) nodes

-- behind the request of a pod; it stands beside the name of the pod's node
unfoldable pub count_pod : String × ℤ → GoMap String SnapshotNode → GoMap String SnapshotNode
unfolding lookup assign occupy
count_pod (name, v) nodes = if v == pos 0 then nodes else occupy_at name v (lookup name nodes) nodes

module _ (quantities : Quantities) where
  open quantities use {Quantity, value, as_int64}

  -- `node.Status.Capacity[nvidiaGPU]`
  abbrev pub capacity_of : Option Quantity → ℤ
  capacity_of none = pos 0
  capacity_of (some v) = int32 (value v)

  -- the entry of a node
  unfoldable pub describe : Node Quantity → Result SnapshotNode
  unfolding memory_of lookup
  describe node = do
    gpu_memory ← memory_of (lookup "nvidia.com/gpu.memory" node.labels)
    ok (record {
      name = node.name;
      gpu_capacity = capacity_of (lookup nvidia_gpu node.capacity);
      memory_capacity = gpu_memory;
      nvidia_attributes =
          some (record { product = product_of (lookup "nvidia.com/gpu.product" node.labels) });
      gpu_occupancy = pos 0;
      pod_count = pos 0;
    })

  -- `for _, node := range nodeList.Items`
  unfoldable pub collect_nodes : List (Node Quantity) → Result (GoMap String SnapshotNode)
  unfolding describe
  collect_nodes nodes = for_each describe (λ n m. assign n.name n m) [] nodes

  -- `v.AsInt64()`
  abbrev pub count_of : Option ℤ → Result (Option ℤ)
  count_of none = err plain
  count_of (some count) = ok (some count)

  abbrev pub limit_at : Option Quantity → Result (Option ℤ)
  limit_at none = ok none
  limit_at (some v) = count_of (as_int64 v)

  -- the GPUs of a container: `none` where the loop goes on without them
  unfoldable pub limit_of : Container Quantity → Result (Option ℤ)
  unfolding lookup
  limit_of con = elim con.limits [
    | none ↦ ok none
    | some limit ↦ limit_at (lookup nvidia_gpu limit)
  ]

  -- `total += int(count)`
  abbrev pub add_count : Option ℤ → ℤ → ℤ
  add_count none total = total
  add_count (some count) total = int64 (total +ℤ count)

  -- `requestedGPUs`
  unfoldable pub requested_gpus : Pod Quantity → Result ℤ
  unfolding limit_of
  requested_gpus pod = for_each limit_of add_count (pos 0) pod.containers

  -- what a pod requests: nothing, unless it runs
  unfoldable pub request_of : Pod Quantity → Result (String × ℤ)
  unfolding requested_gpus
  request_of pod =
      if pod.phase == pod_running
      then map_result (λ v. (pod.node_name, v)) (requested_gpus pod)
      else ok (pod.node_name, pos 0)

  -- `for _, pod := range podList.Items`
  unfoldable pub count_pods :
      GoMap String SnapshotNode → List (Pod Quantity) → Result (GoMap String SnapshotNode)
  unfolding request_of
  count_pods nodes pods = for_each request_of count_pod nodes pods
