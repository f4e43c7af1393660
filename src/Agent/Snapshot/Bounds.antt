-- ===== src/Agent/Snapshot/Bounds.antt =====
-- The GPUs that pods occupy: sums at a fixed width, and where they are exact.
use mathlib.Core.Path.{fun_ext}
use cluster_monitor.Prelude.{
  ℕ, suc, ◌^◌, ◌<◌, ◌≡◌, sym, ap, ◌∙◌, Option, none, some, List, [], ◌∷◌, foldl, length, arith,
}
use cluster_monitor.Prelude.Int.{
  ℤ, pos, ◌+ℤ◌, int32, int64, IsInt32, wrap-int32, wrap-int64, int_laws, +ℤ_comm,
}
use cluster_monitor.Prelude.Int.Wrap.{int32_absorb, int64_absorb, +ℤ_assoc}
use cluster_monitor.Go.Result.{map_result, traverse, for_each-eq-traverse}
use cluster_monitor.Api.{SnapshotNode}
use cluster_monitor.Agent.Kube.{Quantities, Pod}
use cluster_monitor.Agent.Snapshot.{occupy, limit_of, add_count, requested_gpus}
use cluster_monitor.Agent.Snapshot.Nodes.{occupied}

-- The sum, of any size.
abbrev pub sum : List ℤ → ℤ
sum [] = pos 0
sum (v ∷ vs) = v +ℤ sum vs

-- The sum of the counts that are there.
abbrev pub sum_counts : List (Option ℤ) → ℤ
sum_counts [] = pos 0
sum_counts (none ∷ cs) = sum_counts cs
sum_counts (some v ∷ cs) = v +ℤ sum_counts cs

int32_right : (a b : ℤ) → int32 (a +ℤ int32 b) ≡ int32 (a +ℤ b)
int32_right a b = ap int32 (+ℤ_comm a (int32 b)) ∙ int32_absorb b a ∙ ap int32 (+ℤ_comm b a)

int32_fold : (a b c : ℤ) → int32 (int32 (a +ℤ int32 b) +ℤ c) ≡ int32 (a +ℤ (b +ℤ c))
int32_fold a b c =
    ap (λ z. int32 (z +ℤ c)) (int32_right a b) ∙ int32_absorb (a +ℤ b) c ∙ ap int32 (+ℤ_assoc a b c)

+ℤ_zero : (a : ℤ) → a +ℤ pos 0 ≡ a
+ℤ_zero a = omega int_laws

int32_idem : (a : ℤ) → int32 (int32 a) ≡ int32 a
int32_idem a = ap int32 (sym (+ℤ_zero (int32 a))) ∙ int32_absorb a (pos 0) ∙ ap int32 (+ℤ_zero a)

-- The occupancy is the sum of the requests, at 32 bits.
occupied-occupancy :
    (n : SnapshotNode) (vs : List ℤ)
    → int32 n.gpu_occupancy ≡ n.gpu_occupancy
    → (occupied n vs).gpu_occupancy ≡ int32 (n.gpu_occupancy +ℤ sum vs)
unfolding occupy
occupied-occupancy n [] h = sym (ap int32 (+ℤ_zero n.gpu_occupancy) ∙ h)
occupied-occupancy n (v ∷ vs) h =
    occupied-occupancy (occupy v n) vs (int32_idem (n.gpu_occupancy +ℤ int32 v))
    ∙ int32_fold n.gpu_occupancy v (sum vs)

count_up : (a : ℤ) (k : ℕ) → int32 (int32 (a +ℤ pos 1) +ℤ pos k) ≡ int32 (a +ℤ pos (suc k))
count_up a k = int32_absorb (a +ℤ pos 1) (pos k) ∙ ap int32 (omega int_laws)

-- The pods are counted, at 32 bits.
occupied-pod_count :
    (n : SnapshotNode) (vs : List ℤ)
    → int32 n.pod_count ≡ n.pod_count
    → (occupied n vs).pod_count ≡ int32 (n.pod_count +ℤ pos (length vs))
unfolding occupy
occupied-pod_count n [] h = sym (ap int32 (+ℤ_zero n.pod_count) ∙ h)
occupied-pod_count n (v ∷ vs) h =
    occupied-pod_count (occupy v n) vs (int32_idem (n.pod_count +ℤ pos 1))
    ∙ count_up n.pod_count (length vs)

zero-+ℤ : (a : ℤ) → pos 0 +ℤ a ≡ a
zero-+ℤ a = omega int_laws

pub occupied_exact :
    (n : SnapshotNode) (vs : List ℤ)
    → n.gpu_occupancy ≡ pos 0
    → n.pod_count ≡ pos 0
    → IsInt32 (sum vs)
    → length vs < 2 ^ 31
    → ((occupied n vs).gpu_occupancy ≡ sum vs) × ((occupied n vs).pod_count ≡ pos (length vs))
occupied_exact n vs o p h k = (
  occupied-occupancy n vs (rw o (wrap-int32 (pos 0) (omega arith)))
      ∙ ap int32 (ap (λ z. z +ℤ sum vs) o ∙ zero-+ℤ (sum vs))
      ∙ wrap-int32 (sum vs) h,
  occupied-pod_count n vs (rw p (wrap-int32 (pos 0) (omega arith)))
      ∙ ap int32 (ap (λ z. z +ℤ pos (length vs)) p ∙ zero-+ℤ (pos (length vs)))
      ∙ wrap-int32 (pos (length vs)) (omega arith),
)

-- `requestedGPUs` adds at 64 bits.
int64_fold : (a b c : ℤ) → int64 (int64 (a +ℤ b) +ℤ c) ≡ int64 (a +ℤ (b +ℤ c))
int64_fold a b c = int64_absorb (a +ℤ b) c ∙ ap int64 (+ℤ_assoc a b c)

int64_idem : (a : ℤ) → int64 (int64 a) ≡ int64 a
int64_idem a = ap int64 (sym (+ℤ_zero (int64 a))) ∙ int64_absorb a (pos 0) ∙ ap int64 (+ℤ_zero a)

module _ (quantities : Quantities) where
  fold-sum_counts :
      (t : ℤ) (cs : List (Option ℤ))
      → int64 t ≡ t
      → foldl (λ u c. add_count quantities c u) t cs ≡ int64 (t +ℤ sum_counts cs)
  fold-sum_counts t [] h = sym (ap int64 (+ℤ_zero t) ∙ h)
  fold-sum_counts t (none ∷ cs) h = fold-sum_counts t cs h
  fold-sum_counts t (some v ∷ cs) h =
      fold-sum_counts (int64 (t +ℤ v)) cs (int64_idem (t +ℤ v)) ∙ int64_fold t v (sum_counts cs)

  -- requestedGPUs returns the sum of the limits of all containers, wrapped once at 64 bits, and
  -- fails just where the limit of some container is no int64.
  pub requested_gpus-eq-sum_counts :
      (pod : Pod quantities.Quantity)
      → requested_gpus quantities pod
        ≡ map_result (λ cs. int64 (sum_counts cs)) (traverse (limit_of quantities) pod.containers)
  unfolding requested_gpus
  requested_gpus-eq-sum_counts pod =
      for_each-eq-traverse (limit_of quantities) (add_count quantities) (pos 0) pod.containers
      ∙ ap (λ f. map_result f (traverse (limit_of quantities) pod.containers))
          (fun_ext λ cs.
            fold-sum_counts (pos 0) cs (wrap-int64 (pos 0) (omega arith))
            ∙ ap int64 (zero-+ℤ (sum_counts cs)))
