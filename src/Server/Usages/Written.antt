-- ===== src/Server/Usages/Written.antt =====
-- What the accumulation of the GPU usages comes to for one node, written out as folds over its
-- messages.
use mathlib.Core.Option
use cluster_monitor.Prelude.{
  ℕ, zero, suc, ◌+◌, ◌^◌, ◌<◌, ◌≡◌, refl, ap, ◌∙◌, none, some, List, [], ◌∷◌, ◌++◌, map, foldl,
  arith, length, if◌then◌else◌,
}
use cluster_monitor.Prelude.Int.{ℤ, pos, ltb_ℤ, ◌+ℤ◌, wrap, int32, int64, quot}
use cluster_monitor.Go.Float.{Float32}
use cluster_monitor.Api.{GpuNode, UsageValue}
use cluster_monitor.Server.Tally.Groups.{after_histories}
use cluster_monitor.Server.Usages.{
  ClusterNode, Stat, no_stat, count_history, add_node, usage_figures, value_of,
}
use cluster_monitor.Server.Usages.Means.{mean}

wrap-one : (k : ℕ) → k + 1 < 2 ^ 31 → int32 (pos k +ℤ pos 1) ≡ pos (k + 1)
unfolding ◌+ℤ◌ wrap
wrap-one k few = ground arith

-- the greater one of two numbers
abbrev pub greater : ℤ → ℤ → ℤ
greater a b = if ltb_ℤ a b then b else a

module _ {A : Type 0} where
  -- how many of the lists are not empty
  abbrev pub filled : List (List A) → ℕ
  filled [] = 0
  filled ([] ∷ ls) = filled ls
  filled ((x ∷ xs) ∷ ls) = suc (filled ls)

  -- the lists, one behind the other
  abbrev pub joined : List (List A) → List A
  joined [] = []
  joined (l ∷ ls) = l ++ joined ls

  foldl-append :
      {B C : Type 0} (f : C → B → C) (g : A → B) (c : C) (l m : List A)
      → foldl f c (map g (l ++ m)) ≡ foldl f (foldl f c (map g l)) (map g m)
  foldl-append f g c [] m = refl
  foldl-append f g c (x ∷ l) m = foldl-append f g (f c (g x)) l m

  -- `hs_count` behind the lists, each of which counts if it is not empty
  count_from : ℤ → List (List A) → ℤ
  count_from c [] = c
  count_from c ([] ∷ ls) = count_from c ls
  count_from c ((x ∷ xs) ∷ ls) = count_from (int32 (c +ℤ pos 1)) ls

  count_from-eq-filled :
      (k : ℕ) (ls : List (List A))
      → k + length ls < 2 ^ 31
      → count_from (pos k) ls ≡ pos (k + filled ls)
  unfolding count_from
  count_from-eq-filled k [] few = ap pos (omega arith)
  count_from-eq-filled k ([] ∷ ls) few = count_from-eq-filled k ls (omega arith)
  count_from-eq-filled k ((x ∷ xs) ∷ ls) few =
      rw (wrap-one k (omega arith))
        (count_from-eq-filled (k + 1) ls (omega arith) ∙ ap pos (omega arith))

module _ (float : Float32) where
  open float use {Carrier}

  -- The value of a node with `n` histories that have messages of it, from all these messages: the
  -- maxima, and the sums of the averages divided by `n`, each sum with the rounding or the
  -- wrap-around of its type; and zeros where there is none.
  abbrev pub usage_of : ClusterNode → ℕ → List (GpuNode Carrier) → UsageValue Carrier
  usage_of cn zero nodes = record {
    cluster_name = cn.0;
    node_name = cn.1;
    max_gpu_used = float.zero;
    avg_gpu_used = float.zero;
    max_gpu_memory_used_gb = float.zero;
    avg_gpu_memory_used_gb = float.zero;
  }
  usage_of cn (suc n) nodes = record {
    cluster_name = cn.0;
    node_name = cn.1;
    max_gpu_used = foldl float.maximum float.zero (map (λ m. m.max_gpu_used) nodes);
    avg_gpu_used =
        float.divide (foldl float.plus float.zero (map (λ m. m.avg_gpu_used) nodes))
          (float.of_int (pos (suc n)));
    max_gpu_memory_used_gb =
        float.divide (float.of_int (foldl greater (pos 0) (map (λ m. m.max_gpu_memory_used) nodes)))
          (float.of_int (pos 1073741824));
    avg_gpu_memory_used_gb =
        float.divide
          (float.of_int (
            int64 (
              quot (foldl (λ a b. int64 (a +ℤ b)) (pos 0) (map (λ m. m.avg_gpu_memory_used) nodes))
                (pos (suc n)))))
          (float.of_int (pos 1073741824));
  }

  -- A stat that counts `c` histories, with the nodes added.
  with_nodes : ℤ → Stat float → List (GpuNode Carrier) → Stat float
  with_nodes c s nodes = record {
    hs_count = c;
    max_gpu_used = foldl float.maximum s.max_gpu_used (map (λ m. m.max_gpu_used) nodes);
    avg_gpu_used = foldl float.plus s.avg_gpu_used (map (λ m. m.avg_gpu_used) nodes);
    max_gpu_memory_used =
        foldl greater s.max_gpu_memory_used (map (λ m. m.max_gpu_memory_used) nodes);
    avg_gpu_memory_used =
        foldl (λ a b. int64 (a +ℤ b)) s.avg_gpu_memory_used
          (map (λ m. m.avg_gpu_memory_used) nodes);
  }

  add_nodes-eq-with_nodes :
      (s : Stat float) (nodes : List (GpuNode Carrier))
      → foldl (λ t m. add_node float m t) s nodes ≡ with_nodes s.hs_count s nodes
  unfolding add_node with_nodes
  add_nodes-eq-with_nodes s [] = refl
  add_nodes-eq-with_nodes s (n ∷ ns) = add_nodes-eq-with_nodes (add_node float n s) ns

  with_nodes-append :
      (c d : ℤ) (s : Stat float) (l m : List (GpuNode Carrier))
      → with_nodes c (with_nodes d s l) m ≡ with_nodes c s (l ++ m)
  unfolding with_nodes
  with_nodes-append c d s l m =
      rw foldl-append (rw foldl-append (rw foldl-append (rw foldl-append refl)))

  after_some :
      (s : Stat float) (ls : List (List (GpuNode Carrier)))
      → after_histories (usage_figures float) (some s) ls
        ≡ some (with_nodes (count_from s.hs_count ls) s (joined ls))
  unfolding count_from with_nodes count_history
  after_some s [] = ap some (add_nodes-eq-with_nodes s [])
  after_some s ([] ∷ ls) = after_some s ls
  after_some s ((n ∷ ns) ∷ ls) =
      let t = with_nodes (int32 (s.hs_count +ℤ pos 1)) s (n ∷ ns) in
      ap (λ z. after_histories (usage_figures float) (some z) ls)
        (add_nodes-eq-with_nodes (count_history float s) (n ∷ ns))
      ∙ after_some t ls
      ∙ ap some (
          with_nodes-append (count_from (int32 (s.hs_count +ℤ pos 1)) ls)
            (int32 (s.hs_count +ℤ pos 1)) s (n ∷ ns) (joined ls))

  after_none :
      (n : GpuNode Carrier) (ns : List (GpuNode Carrier)) (ls : List (List (GpuNode Carrier)))
      → suc (length ls) < 2 ^ 31
      → after_histories (usage_figures float) none ((n ∷ ns) ∷ ls)
        ≡ some (with_nodes (pos (suc (filled ls))) (no_stat float) (joined ((n ∷ ns) ∷ ls)))
  unfolding count_from
  after_none n ns ls few =
      after_some (no_stat float) ((n ∷ ns) ∷ ls)
      ∙ ap (λ c. some (with_nodes c (no_stat float) (joined ((n ∷ ns) ∷ ls))))
          (count_from-eq-filled 0 ((n ∷ ns) ∷ ls) (omega arith) ∙ ap pos (omega arith))

  -- The value that is returned for a node is the one that is written out.
  pub value_of-eq-usage_of :
      (cn : ClusterNode) (ls : List (List (GpuNode Carrier)))
      → length ls < 2 ^ 31
      → value_of float cn (Option.map (mean float) (after_histories (usage_figures float) none ls))
        ≡ usage_of cn (filled ls) (joined ls)
  unfolding value_of with_nodes
  value_of-eq-usage_of cn [] few = refl
  value_of-eq-usage_of cn ([] ∷ ls) few = value_of-eq-usage_of cn ls (omega arith)
  value_of-eq-usage_of cn ((n ∷ ns) ∷ ls) few =
      ap (λ o. value_of float cn (Option.map (mean float) o)) (after_none n ns ls few)
