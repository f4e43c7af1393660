-- ===== src/Server/Usages/Means.antt =====
-- The loop that divides each stat of the GPU usages by its number of histories.
use native.Mathlib.Nat.{add-zero}
use mathlib.Core.Path.{subst}
use cluster_monitor.Prelude.{
  ℕ, suc, ◌+◌, ◌^◌, ◌≤◌, ◌<◌, ◌≡◌, refl, false, Option, none, some, List, [], ◌∷◌, foldl, arith,
  length,
}
use cluster_monitor.Prelude.Int.{pos_part, neg_part, ◌+ℤ◌, wrap, int64, quot}
use cluster_monitor.Prelude.Order.{int_ord}
use cluster_monitor.Go.Result.{ok}
use cluster_monitor.Go.Float.{Float32}
use cluster_monitor.Go.Map.{GoMap, map_values, AllValues}
use cluster_monitor.Api.{GpuNode}
use cluster_monitor.Server.Tally.Groups.{after_history, after_histories}
use cluster_monitor.Server.Snapshots.{divide}
use cluster_monitor.Server.Usages.{
  ClusterNode, Stat, no_stat, count_history, add_node, usage_figures, average, averages,
}

module _ (float : Float32) where
  open float use {Carrier}

  -- The stat with its two averages divided by the number of histories.
  abbrev pub mean : Stat float → Stat float
  mean s = record s {
    avg_gpu_used = float.divide s.avg_gpu_used (float.of_int s.hs_count);
    avg_gpu_memory_used = int64 (quot s.avg_gpu_memory_used s.hs_count);
  }

  -- The stat counts at least one history, and at most `n`.
  abbrev pub Counts : ℕ → Stat float → Type 0
  Counts n s = (neg_part s.hs_count ≡ 0) × (1 ≤ pos_part s.hs_count) × (pos_part s.hs_count ≤ n)

  average-eq-mean : (n : ℕ) (s : Stat float) → Counts n s → average float s ≡ ok (mean s)
  unfolding average divide
  average-eq-mean n s c = ground arith

  -- No division by zero: the loop replaces each stat by its mean.
  pub averages-eq-means :
      (n : ℕ) (stats : GoMap ClusterNode (Stat float))
      → AllValues (Counts n) stats
      → averages float stats ≡ ok (map_values mean stats)
  unfolding averages map_values
  averages-eq-means n [] c = refl
  averages-eq-means n ((k, s) ∷ stats) (c, cs) =
      rw (average-eq-mean n s c) (rw (averages-eq-means n stats cs))

  hs_count-nodes :
      (s : Stat float) (nodes : List (GpuNode Carrier))
      → (foldl (λ t m. add_node float m t) s nodes).hs_count ≡ s.hs_count
  unfolding add_node
  hs_count-nodes s [] = refl
  hs_count-nodes s (node ∷ nodes) = hs_count-nodes (add_node float node s) nodes

  abbrev pub AllCount : ℕ → Option (Stat float) → Type 0
  AllCount n none = Unit
  AllCount n (some s) = Counts n s

  -- `hsCount++` at a stat that counts at most `n` histories, or none yet.
  counted-once :
      (n : ℕ) (s : Stat float)
      → n + 1 < 2 ^ 31
      → (neg_part s.hs_count ≡ 0)
      → pos_part s.hs_count ≤ n
      → Counts (n + 1) (count_history float s)
  unfolding count_history ◌+ℤ◌ wrap
  counted-once n s h e c = ground arith

  after_history-AllCount :
      (n : ℕ) (s : Option (Stat float)) (nodes : List (GpuNode Carrier))
      → n + 1 < 2 ^ 31
      → AllCount n s
      → AllCount (n + 1) (after_history (usage_figures float) false s nodes)
  unfolding add_node
  after_history-AllCount n none [] h c = tt
  after_history-AllCount n (some s) [] h c = omega arith
  after_history-AllCount n none (node ∷ nodes) h c =
      rw (hs_count-nodes (add_node float node (count_history float (no_stat float))) nodes)
        (counted-once n (no_stat float) h refl (omega arith))
  after_history-AllCount n (some s) (node ∷ nodes) h c =
      rw (hs_count-nodes (add_node float node (count_history float s)) nodes)
        (counted-once n s h c.0 c.2)

  pub after_histories-AllCount :
      (n : ℕ) (s : Option (Stat float)) (ls : List (List (GpuNode Carrier)))
      → n + length ls < 2 ^ 31
      → AllCount n s
      → AllCount (n + length ls) (after_histories (usage_figures float) s ls)
  after_histories-AllCount n s [] h c = rw add-zero c
  after_histories-AllCount n s (l ∷ ls) h c =
      let shift : n + 1 + length ls ≡ n + suc (length ls) = omega arith in
      subst
        (λ k. AllCount k (
          after_histories (usage_figures float) (after_history (usage_figures float) false s l) ls))
        shift
        (after_histories-AllCount (n + 1) (after_history (usage_figures float) false s l) ls
          (omega arith) (after_history-AllCount n s l (omega arith) c))
