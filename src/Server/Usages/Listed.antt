-- ===== src/Server/Usages/Listed.antt =====
-- What `calculateGPUUsageValues` returns, against a description that has no map: for each node of a
-- cluster, the figures of its messages.
use mathlib.Core.Path.{subst}
use cluster_monitor.Prelude.{
  ◌^◌, ◌<◌, ◌≡◌, refl, sym, ap, ◌∙◌, String, Option, none, List, [], ◌∷◌, map, arith, length,
  length-map, ◌+◌,
}
use cluster_monitor.Prelude.Order.{string_ord, pair_ord}
use cluster_monitor.Go.Result.{
  Result, ok, map_result, traverse, ◌>>=◌, length-traverse, bind_congr, map_pointwise, bind-ok,
}
use cluster_monitor.Go.Float.{Float32}
use cluster_monitor.Go.Map.{
  GoMap, lookup, map_values, AllValues, lookup-map_values, AllValues-of_lookup,
}
use cluster_monitor.Api.{GpuNode, GpuTelemetry, UsageValue}
use cluster_monitor.Store.Rows.{Bytes, GpuTelemetryHistory}
use cluster_monitor.Server.Tally.{tally}
use cluster_monitor.Server.Tally.Groups.{mine, after_histories, keyed, tally-lookup}
use cluster_monitor.Server.Tally.Keys.{tally-IsUnrepeated}
use cluster_monitor.Server.Usages.{
  ClusterNode, Stat, usage_figures, averages, listed, nodes_of, key_of, calculate_gpu_usage_values,
}
use cluster_monitor.Server.Usages.Written.{filled, joined, usage_of, value_of-eq-usage_of}
use cluster_monitor.Server.Usages.Means.{
  mean, Counts, AllCount, averages-eq-means, after_histories-AllCount,
}

module _ (float : Float32) where
  open float use {Carrier}

  -- The value of the node `cn`, from the messages of each history with their keys: how many histories
  -- have one of the node, and all of these.
  abbrev pub node_value :
      List (List (ClusterNode × GpuNode Carrier)) → ClusterNode → UsageValue Carrier
  node_value ls cn = usage_of float cn (filled (map (mine cn) ls)) (joined (map (mine cn) ls))

  module _ (unmarshal : Bytes → Result (GpuTelemetry Carrier)) (names : GoMap String String) where
    -- The keys of all nodes, history by history.
    abbrev pub keyed_histories :
        List GpuTelemetryHistory → Result (List (List (ClusterNode × GpuNode Carrier)))
    keyed_histories =
        traverse (keyed (nodes_of float unmarshal names) (key_of float unmarshal names))

    abbrev sums : List GpuTelemetryHistory → Result (GoMap ClusterNode (Stat float))
    sums =
        tally (usage_figures float) (nodes_of float unmarshal names) (key_of float unmarshal names)
          []

    -- The stat of every key at once.
    sums_at :
        (hs : List GpuTelemetryHistory)
        → map_result {B = ClusterNode → Option (Stat float)} (λ m g. lookup g m) (sums hs)
          ≡ map_result {B = ClusterNode → Option (Stat float)}
              (λ ls g. after_histories (usage_figures float) none (map (mine g) ls))
              (keyed_histories hs)
    unfolding lookup
    sums_at hs =
        map_pointwise (λ g m. lookup g m)
          (λ g ls. after_histories (usage_figures float) none (map (mine g) ls)) ("", "") (sums hs)
          (keyed_histories hs)
          (λ g.
            tally-lookup (usage_figures float) (nodes_of float unmarshal names)
              (key_of float unmarshal names) g [] hs)

    module _ (hs : List GpuTelemetryHistory) (few : length hs < 2 ^ 31)
        (m : GoMap ClusterNode (Stat float)) (ls : List (List (ClusterNode × GpuNode Carrier)))
        (summed : sums hs ≡ ok m) (keyed_as : keyed_histories hs ≡ ok ls)
        (at : (g : ClusterNode)
          → lookup g m ≡ after_histories (usage_figures float) none (map (mine g) ls)) where
      size : (g : ClusterNode) → 0 + length (map (mine g) ls) ≡ length hs
      size g = omega (
        arith,
        length-map (mine g) ls,
        length-traverse (keyed (nodes_of float unmarshal names) (key_of float unmarshal names)) hs
            keyed_as,
      )

      -- No stat of the map counts no history.
      all_count : AllValues (Counts float (length hs)) m
      all_count =
          AllValues-of_lookup (Counts float (length hs)) m
            (tally-IsUnrepeated (usage_figures float) (nodes_of float unmarshal names)
              (key_of float unmarshal names) hs [] summed tt)
            λ g s e. subst (AllCount float (length hs)) (sym (at g) ∙ e) (
              subst
                (λ n.
                  AllCount float n (after_histories (usage_figures float) none (map (mine g) ls)))
                (size g)
                (after_histories-AllCount float 0 none (map (mine g) ls) (omega (arith, size g))
                  tt))

      means : averages float m ≡ ok (map_values (mean float) m)
      means = averages-eq-means float (length hs) m all_count

      listed-eq-node_values :
          (cns : List ClusterNode)
          → listed float (map_values (mean float) m) cns ≡ map (node_value ls) cns
      unfolding listed
      listed-eq-node_values [] = refl
      listed-eq-node_values (g ∷ cns) = rw (lookup-map_values (mean float) g m) (
          rw (at g) (
            rw (listed-eq-node_values cns) (
              ap (λ v. v ∷ map (node_value ls) cns)
                (value_of-eq-usage_of float g (map (mine g) ls) (omega (arith, size g))))))

    -- For fewer than 2^31 histories, calculateGPUUsageValues returns for each node that is asked
    -- for the maxima over all its messages, the sum of its average GPU usages and the sum of its
    -- average memory usages, wrapped at 64 bits, each divided by the number of histories that have
    -- a message of it, and the memory in GB; or zeros where none has one. It fails just as the
    -- computation of the keys does, and never by an integer division by zero.
    pub calculate_gpu_usage_values-eq-node_values :
        (all_cluster_nodes : List ClusterNode) (hs : List GpuTelemetryHistory)
        → length hs < 2 ^ 31
        → calculate_gpu_usage_values float unmarshal names all_cluster_nodes hs
          ≡ map_result (λ ls. map (node_value ls) all_cluster_nodes) (keyed_histories hs)
    unfolding calculate_gpu_usage_values
    calculate_gpu_usage_values-eq-node_values all_cluster_nodes hs few =
        bind_congr (λ m g. lookup g m)
          (λ ls g. after_histories (usage_figures float) none (map (mine g) ls))
          (λ m. do stats ← averages float m; ok (listed float stats all_cluster_nodes))
          (λ ls. ok (map (node_value ls) all_cluster_nodes)) (sums hs) (keyed_histories hs)
          (sums_at hs)
          (λ m ls e f at.
            let at_key : (g : ClusterNode)
                → lookup g m ≡ after_histories (usage_figures float) none (map (mine g) ls) =
              λ g. ap (λ h. h g) at in
            rw (means hs few m ls e f at_key)
              (ap ok (listed-eq-node_values hs few m ls e f at_key all_cluster_nodes)))
        ∙ bind-ok (keyed_histories hs) (λ ls. map (node_value ls) all_cluster_nodes)
