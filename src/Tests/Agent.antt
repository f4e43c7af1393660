-- ===== src/Tests/Agent.antt =====
-- Tests of the agent's snapshot, on a cluster with two nodes.
use Prim.Native.Nat.{◌/◌}
use cluster_monitor.Prelude.{◌≡◌, refl, String, Option, none, some, List, [], ◌∷◌, length, arith}
use cluster_monitor.Prelude.Int.{times, ◌+ℤ◌, wrap, ℤ, pos, negsuc, quot}
use cluster_monitor.Prelude.Order.{string_ord}
use cluster_monitor.Go.Result.{for_each, ok, err, plain, traverse}
use cluster_monitor.Go.Strconv.{parse_int}
use cluster_monitor.Go.Exec.{◌>>=◌}
use cluster_monitor.Api.{SnapshotNode, ClusterSnapshot}
use cluster_monitor.Agent.Kube.{Quantities, Node, Pod, Client}
use cluster_monitor.Agent.Snapshot.{count_pod, collect_nodes, count_pods, request_of}
use cluster_monitor.Agent.Snapshot.Collect.{build_snapshot}
use cluster_monitor.Agent.Snapshot.Bounds.{sum}
use cluster_monitor.Agent.Snapshot.Nodes.{requests_at}
use cluster_monitor.Agent.Snapshot.Laws.{Describes, build_snapshot-Describes}
use cluster_monitor.Agent.Snapshot.Exact.{build_snapshot_exact}

numbers_parse :
    (parse_int "16384" ≡ ok (pos 16384))
    × (parse_int "-1" ≡ ok (negsuc 0))
    × (parse_int "9223372036854775808" ≡ err plain)
    × (parse_int "+" ≡ err plain)
    × (parse_int "1_000" ≡ err plain)
unfolding parse_int
numbers_parse = (refl, refl, refl, refl, refl)

-- Quantities in thousandths: those that are no whole numbers have no int64.
abbrev as_int64 : ℤ → Option ℤ
as_int64 (pos n) = some (pos (n / 1000))
as_int64 (negsuc n) = none

abbrev pub quantities : Quantities
quantities = record { Quantity = ℤ; value = λ q. quot q (pos 1000); as_int64 = as_int64 }

abbrev nodes : List (Node ℤ)
nodes =
    record {
      name = "n1";
      labels = ("nvidia.com/gpu.memory", "16384") ∷ ("nvidia.com/gpu.product", "A100") ∷ [];
      capacity = ("nvidia.com/gpu", pos 8000) ∷ [];
    }
    ∷ record { name = "n2"; labels = []; capacity = [] }
    ∷ []

abbrev pod : String → String → ℤ → Pod ℤ
pod phase node_name gpus = record {
  name = "p";
  phase = phase;
  node_name = node_name;
  containers =
      record { limits = none } ∷ record { limits = some (("nvidia.com/gpu", gpus) ∷ []) } ∷ [];
}

-- The third pod does not run, and the fourth runs on a node that is not selected.
abbrev pods : List (Pod ℤ)
pods =
    pod "Running" "n1" (pos 2000)
    ∷ pod "Running" "n1" (pos 1000)
    ∷ pod "Pending" "n1" (pos 4000)
    ∷ pod "Running" "n3" (pos 1000)
    ∷ []

abbrev client : Client ℤ
client = record {
  State = Unit {0};
  list_nodes = λ selector s. (ok nodes, s);
  list_pods = λ s. (ok pods, s);
}

abbrev n1 : SnapshotNode
n1 = record {
  name = "n1";
  gpu_capacity = pos 8;
  memory_capacity = pos 17179869184;
  nvidia_attributes = some (record { product = "A100" });
  gpu_occupancy = pos 3;
  pod_count = pos 2;
}

abbrev snapshot : ClusterSnapshot
snapshot = record {
  nodes =
      n1
      ∷ record {
        name = "n2";
        gpu_capacity = pos 0;
        memory_capacity = pos 0;
        nvidia_attributes = some (record { product = "unknown" });
        gpu_occupancy = pos 0;
        pod_count = pos 0;
      }
      ∷ [];
}

snapshot_built : (build_snapshot quantities client [] tt).0 ≡ ok snapshot
unfolding build_snapshot ◌>>=◌ collect_nodes for_each parse_int count_pods count_pod wrap ◌+ℤ◌ quot
    times
snapshot_built = refl

build_snapshot-Describes_example : Describes quantities client [] tt snapshot
build_snapshot-Describes_example =
    build_snapshot-Describes quantities client [] tt snapshot snapshot_built

abbrev requests : List (String × ℤ)
requests = ("n1", pos 2) ∷ ("n1", pos 1) ∷ ("n1", pos 0) ∷ ("n3", pos 1) ∷ []

requests_read : traverse (request_of quantities) pods ≡ ok requests
unfolding traverse request_of for_each wrap ◌+ℤ◌
requests_read = refl

build_snapshot_exact_example :
    (◌≡◌ {A = ℤ} (pos 3) (sum (requests_at "n1" requests)))
    × (◌≡◌ {A = ℤ} (pos 2) (pos (length (requests_at "n1" requests))))
unfolding ◌+ℤ◌
build_snapshot_exact_example =
    build_snapshot_exact quantities client [] tt snapshot pods requests "n1" n1 snapshot_built refl
      requests_read refl (omega arith) (omega arith)
