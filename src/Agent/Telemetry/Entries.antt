-- ===== src/Agent/Telemetry/Entries.antt =====
-- The entries of the message, written out: one for each host of a selected node that has samples.
use mathlib.Core.List.{Perm}
use mathlib.Core.Logic.{∥∥₁_elim, ∥∥₁_prop}
use cluster_monitor.Prelude.{
  ◌≡◌, refl, sym, ap, ◌∙◌, String, Bool, true, false, ◌||◌, ◌&&◌, Option, none, some, List, [], ◌∷◌,
  map, foldl, length, inl, inr, Bool-cases,
}
use mathlib.Core.Path.{subst}
use cluster_monitor.Prelude.Int.{ℤ, pos}
use cluster_monitor.Prelude.Order.{◌==◌, eq_of_==, string_ord}
use cluster_monitor.Go.Float.{Float64}
use cluster_monitor.Go.Map.{GoMap, keys, lookup}
use cluster_monitor.Go.Keys.{has, is_some, perm_of_has}
use cluster_monitor.Go.Sort.{IsUnrepeated, AllOther}
use cluster_monitor.Api.{GpuNode}
use cluster_monitor.Agent.Kube.{Node}
use cluster_monitor.Agent.Telemetry.Hosts.{
  noted_hosts-IsUnrepeated, noted_hosts-has, telemetry_nodes-permᴰ,
}
use cluster_monitor.Agent.Telemetry.{
  Samples, max_and_sum, compute_max_avg, figures_at, telemetry_of, telemetry_at, telemetry_nodes,
  note_hosts, build_gpu_telemetry_message,
}

and_or : (a b c : Bool) → ((a && c) || (b && c)) ≡ ((a || b) && c)
and_or true true true = refl
and_or true true false = refl
and_or true false true = refl
and_or true false false = refl
and_or false b c = refl

module _ {F : Type 0} (float : Float64 F) {Q : Type 0}
    (util mem : GoMap String (Samples float.Carrier)) (nodes : GoMap String (Node Q)) where
  -- the selected ones of the hosts
  kept : String → Option (Node Q) → List String → List String
  kept h none hosts = hosts
  kept h (some node) hosts = h ∷ hosts

  selected : List String → List String
  selected [] = []
  selected (h ∷ hosts) = kept h (lookup h nodes) (selected hosts)

  telemetry_nodes-kept :
      (h : String) (o : Option (Node Q)) (hosts : List String)
      → lookup h nodes ≡ o
      → telemetry_nodes float util mem nodes (kept h o hosts)
        ≡ telemetry_at float util mem h o (telemetry_nodes float util mem nodes hosts)
  unfolding telemetry_nodes kept
  telemetry_nodes-kept h none hosts e = refl
  telemetry_nodes-kept h (some node) hosts e = rw e refl

  telemetry_nodes-selected :
      (hosts : List String)
      → telemetry_nodes float util mem nodes (selected hosts)
        ≡ telemetry_nodes float util mem nodes hosts
  unfolding telemetry_nodes selected
  telemetry_nodes-selected [] = refl
  telemetry_nodes-selected (h ∷ hosts) =
      telemetry_nodes-kept h (lookup h nodes) (selected hosts) refl
      ∙ ap (telemetry_at float util mem h (lookup h nodes)) (telemetry_nodes-selected hosts)

  AllOther-kept :
      (k h : String) (o : Option (Node Q)) (hosts : List String)
      → (k == h) ≡ false
      → AllOther k hosts
      → AllOther k (kept h o hosts)
  unfolding kept
  AllOther-kept k h none hosts e a = a
  AllOther-kept k h (some node) hosts e a = (e, a)

  selected-AllOther :
      (k : String) (hosts : List String) → AllOther k hosts → AllOther k (selected hosts)
  unfolding selected
  selected-AllOther k [] a = a
  selected-AllOther k (h ∷ hosts) (e, a) =
      AllOther-kept k h (lookup h nodes) (selected hosts) e (selected-AllOther k hosts a)

  kept-IsUnrepeated :
      (h : String) (o : Option (Node Q)) (hosts : List String)
      → AllOther h hosts
      → IsUnrepeated hosts
      → IsUnrepeated (kept h o hosts)
  unfolding kept
  kept-IsUnrepeated h none hosts a u = u
  kept-IsUnrepeated h (some node) hosts a u = (a, u)

  selected-IsUnrepeated : (hosts : List String) → IsUnrepeated hosts → IsUnrepeated (selected hosts)
  unfolding selected
  selected-IsUnrepeated [] u = u
  selected-IsUnrepeated (h ∷ hosts) (a, u) =
      kept-IsUnrepeated h (lookup h nodes) (selected hosts) (selected-AllOther h hosts a)
        (selected-IsUnrepeated hosts u)

  kept-has :
      (g h : String) (o : Option (Node Q)) (hosts : List String)
      → lookup h nodes ≡ o
      → has g (kept h o hosts) ≡ ((h == g && is_some (lookup g nodes)) || has g hosts)
  unfolding kept
  kept-has g h none hosts e = elim (Bool-cases (h == g)) [
    | inl same ↦ rw same (rw (← eq_of_== h g same) (rw e refl))
    | inr differ ↦ rw differ refl
  ]
  kept-has g h (some node) hosts e = elim (Bool-cases (h == g)) [
    | inl same ↦ rw same (rw (← eq_of_== h g same) (rw e refl))
    | inr differ ↦ rw differ refl
  ]

  selected-has :
      (g : String) (hosts : List String)
      → has g (selected hosts) ≡ (has g hosts && is_some (lookup g nodes))
  unfolding selected
  selected-has g [] = refl
  selected-has g (h ∷ hosts) =
      kept-has g h (lookup h nodes) (selected hosts) refl
      ∙ ap (λ b. (h == g && is_some (lookup g nodes)) || b) (selected-has g hosts)
      ∙ and_or (h == g) (has g hosts) (is_some (lookup g nodes))

  -- the totals over the GPUs and containers of a host, one for each instant
  abbrev pub totals : Samples float.Carrier → List float.Carrier
  totals = map (λ e. foldl float.plus float.zero e.1)

  -- The greatest total of a host, and the mean of its totals, which are zero without samples.
  abbrev pub greatest : Option (Samples float.Carrier) → float.Carrier
  greatest none = float.zero
  greatest (some m) = foldl float.maximum float.zero (totals m)

  abbrev pub mean : Option (Samples float.Carrier) → float.Carrier
  mean none = float.zero
  mean (some m) =
      float.divide (foldl float.plus float.zero (totals m)) (float.of_int (pos (length m)))

  -- a number of MB in bytes
  abbrev of_mb : float.Carrier → ℤ
  of_mb x =
      float.to_int64
        (float.multiply (float.multiply x (float.of_int (pos 1024))) (float.of_int (pos 1024)))

  -- The entry of a host with its node: percentages of the utilization as numbers of GPUs, and the
  -- used memory in bytes.
  abbrev pub entry_of : String × Node Q → GpuNode F
  entry_of (h, node) = record {
    name = node.name;
    max_gpu_used =
        float.to_float32 (float.divide (greatest (lookup h util)) (float.of_int (pos 100)));
    avg_gpu_used = float.to_float32 (float.divide (mean (lookup h util)) (float.of_int (pos 100)));
    max_gpu_memory_used = of_mb (greatest (lookup h mem));
    avg_gpu_memory_used = of_mb (mean (lookup h mem));
  }

  max_and_sum-totals :
      (x y : float.Carrier) (m : Samples float.Carrier)
      → max_and_sum float (x, y) m
        ≡ (foldl float.maximum x (totals m), foldl float.plus y (totals m))
  unfolding max_and_sum
  max_and_sum-totals x y [] = refl
  max_and_sum-totals x y ((t, samples) ∷ rest) =
      max_and_sum-totals (float.maximum x (foldl float.plus float.zero samples))
        (float.plus y (foldl float.plus float.zero samples)) rest

  figures_at-eq : (o : Option (Samples float.Carrier)) → figures_at float o ≡ (greatest o, mean o)
  unfolding figures_at compute_max_avg
  figures_at-eq none = refl
  figures_at-eq (some m) = rw (max_and_sum-totals float.zero float.zero m) refl

  telemetry_of-eq-entry_of :
      (h : String) (node : Node Q) → telemetry_of float util mem h node ≡ entry_of (h, node)
  unfolding telemetry_of
  telemetry_of-eq-entry_of h node =
      rw (figures_at-eq (lookup h util)) (rw (figures_at-eq (lookup h mem)) refl)

  -- Each host has the node that is beside it.
  abbrev pub AllSelected : List (String × Node Q) → Type 0
  AllSelected [] = Unit
  AllSelected ((h, node) ∷ hosts) = (lookup h nodes ≡ some node) × AllSelected hosts

  telemetry_nodes-eq-entries :
      (hosts : List (String × Node Q))
      → AllSelected hosts
      → telemetry_nodes float util mem nodes (keys hosts) ≡ map entry_of hosts
  unfolding telemetry_nodes
  telemetry_nodes-eq-entries [] a = refl
  telemetry_nodes-eq-entries ((h, node) ∷ hosts) (e, a) =
      ap (λ o. telemetry_at float util mem h o (telemetry_nodes float util mem nodes (keys hosts)))
        e
      ∙ ap (λ l. telemetry_of float util mem h node ∷ l) (telemetry_nodes-eq-entries hosts a)
      ∙ ap (λ n. n ∷ map entry_of hosts) (telemetry_of-eq-entry_of h node)

  -- For a list without repetition of just the hosts that have samples of either metric and a
  -- selected node, each with its node, the entries of buildGPUTelemetryMessage are, up to their
  -- order, one for each of these hosts: the name of the node, and of each metric the greatest among
  -- zero and the totals of the instants and the mean of these totals, with zeros where the host has
  -- no samples of it; the utilization in GPUs, and the memory in bytes.
  pub build_gpu_telemetry_message-perm :
      (hosts : List (String × Node Q))
      → IsUnrepeated (keys hosts)
      → AllSelected hosts
      → ((g : String)
          → has g (keys hosts)
            ≡ ((has g (keys util) || has g (keys mem)) && is_some (lookup g nodes)))
      → Perm (build_gpu_telemetry_message float util mem nodes) (map entry_of hosts)
  unfolding build_gpu_telemetry_message
  build_gpu_telemetry_message-perm hosts u a h =
      let noted = note_hosts (keys mem) (note_hosts (keys util) []) in
      let unrepeated : IsUnrepeated (keys noted) = noted_hosts-IsUnrepeated util mem in
      let same : Perm (selected (keys noted)) (keys hosts) =
        perm_of_has (selected (keys noted)) (keys hosts)
          (selected-IsUnrepeated (keys noted) unrepeated) u
          (λ g.
            selected-has g (keys noted)
            ∙ ap (λ b. b && is_some (lookup g nodes)) (noted_hosts-has util mem g)
            ∙ sym (h g)) in
      subst (λ l. Perm l (map entry_of hosts)) (telemetry_nodes-selected (keys noted))
        (subst (Perm (telemetry_nodes float util mem nodes (selected (keys noted))))
          (telemetry_nodes-eq-entries hosts a)
          (∥∥₁_elim same ∥∥₁_prop (telemetry_nodes-permᴰ float util mem nodes)))
