-- ===== src/Server/Snapshots/Iteration.antt =====
-- Go visits the entries of a map in any order. Where nothing is grouped, the stats are summed up in
-- that order; the sum does not depend on it.
use mathlib.Core.List.{Perm, Permᴰ}
use mathlib.Core.Logic.{∥∥₁_elim}
use cluster_monitor.Prelude.Order.{String-set}
use cluster_monitor.Prelude.{◌≡◌, refl, ap, ◌∙◌, List}
use cluster_monitor.Prelude.Int.{int32, quot}
use cluster_monitor.Prelude.Int.Wrap.{int32_right_comm}
use cluster_monitor.Api.{SnapshotValue}
use cluster_monitor.Server.Snapshots.{Stat, add_stat, aggregate, to_gb}

SnapshotValue-set : IsSet SnapshotValue
SnapshotValue-set = hlevel String-set

add_stat_comm :
    (s t : Stat) (v : SnapshotValue) → add_stat t (add_stat s v) ≡ add_stat s (add_stat t v)
unfolding add_stat
add_stat_comm s t v = λ i. record {
  grouping_value = v.grouping_value;
  node_count = int32_right_comm v.node_count s.node_count t.node_count i;
  gpu_capacity = int32_right_comm v.gpu_capacity s.gpu_capacity t.gpu_capacity i;
  memory_capacity_gb =
      int32_right_comm v.memory_capacity_gb (int32 (quot s.memory_capacity to_gb))
        (int32 (quot t.memory_capacity to_gb)) i;
  gpu_occupancy = int32_right_comm v.gpu_occupancy s.gpu_occupancy t.gpu_occupancy i;
  pod_count = int32_right_comm v.pod_count s.pod_count t.pod_count i;
}

aggregate-permᴰ : {l m : List Stat} (v : SnapshotValue) → Permᴰ l m → aggregate v l ≡ aggregate v m
unfolding aggregate
aggregate-permᴰ v Permᴰ.nil = refl
aggregate-permᴰ v (Permᴰ.cons {b = b} e p) = rw e (aggregate-permᴰ (add_stat b v) p)
aggregate-permᴰ v (Permᴰ.swap {a' = a'} {b' = b'} {l = l} e f) =
    rw e (rw f (ap (λ w. aggregate w l) (add_stat_comm b' a' v)))
aggregate-permᴰ v (Permᴰ.trans p q) = aggregate-permᴰ v p ∙ aggregate-permᴰ v q

-- Where nothing is grouped, the sum over the stats is the same in whatever order the map is
-- visited, integers that overflow included.
pub aggregate-perm :
    (l m : List Stat) (v : SnapshotValue) → Perm l m → aggregate v l ≡ aggregate v m
aggregate-perm l m v p = ∥∥₁_elim p (SnapshotValue-set _ _) (aggregate-permᴰ v)
