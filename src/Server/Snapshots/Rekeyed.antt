-- ===== src/Server/Snapshots/Rekeyed.antt =====
-- The keys of histories in another order.
use mathlib.Core.List.{Permᴰ}
use mathlib.Core.List.Permᴰ
use mathlib.Core.Option
use mathlib.Core.Path.{fun_ext}
use cluster_monitor.Prelude.{◌≡◌, refl, sym, ap, ◌∙◌, String, List, arith, none}
use cluster_monitor.Prelude.Int.{pos}
use cluster_monitor.Prelude.Int.Wrap.{int32_right_comm, int64_right_comm}
use cluster_monitor.Prelude.Order.{string_ord, int_ord}
use cluster_monitor.Go.Result.{Result, ok, map_result, traverse, ok-injective}
use cluster_monitor.Go.Traverse.{traverse-permᴰ, map_result_inversion}
use cluster_monitor.Go.Keys.{has, ascending_ext}
use cluster_monitor.Go.Map.{GoMap, lookup}
use cluster_monitor.Api.{
  GroupBy, unspecified, cluster, product, unknown, SnapshotNode, ClusterSnapshot,
}
use cluster_monitor.Store.Rows.{Bytes, ClusterSnapshotHistory}
use cluster_monitor.Server.Tally.Groups.{mine, keyed}
use cluster_monitor.Server.Tally.Noted.{occurs}
use cluster_monitor.Server.Tally.Order.{Commutes, after_histories-permᴰ}
use cluster_monitor.Server.Snapshots.{
  value_of, snapshot_figures, add_node, count_history, get_grouping_value, key_of, nodes_of,
  get_all_grouping_values,
}
use cluster_monitor.Server.Snapshots.Grouped.{group_value, keyed_histories}
use cluster_monitor.Server.Snapshots.Keys.{
  get_all_grouping_values-IsAscending, get_all_grouping_values-has,
}
use cluster_monitor.Server.Snapshots.Averages.{mean}

pub snapshot_figures-Commutes : Commutes snapshot_figures
unfolding add_node count_history
snapshot_figures-Commutes = record {
  add_add = λ n m s i. record {
    hs_count = s.hs_count;
    node_count = int32_right_comm s.node_count (pos 1) (pos 1) i;
    gpu_capacity = int32_right_comm s.gpu_capacity m.gpu_capacity n.gpu_capacity i;
    memory_capacity = int64_right_comm s.memory_capacity m.memory_capacity n.memory_capacity i;
    gpu_occupancy = int32_right_comm s.gpu_occupancy m.gpu_occupancy n.gpu_occupancy i;
    pod_count = int32_right_comm s.pod_count m.pod_count n.pod_count i;
  };
  count_add = λ n s. refl;
}

pub group_value-permᴰ :
    (g : String) {ls ms : List (List (String × SnapshotNode))}
    → Permᴰ ls ms
    → group_value ls g ≡ group_value ms g
group_value-permᴰ g p =
    ap (λ s. value_of g (Option.map mean s))
      (after_histories-permᴰ snapshot_figures snapshot_figures-Commutes none (Permᴰ.map (mine g) p))

pub occurs-permᴰ :
    (g : String) {ls ms : List (List (String × SnapshotNode))}
    → Permᴰ ls ms
    → occurs g ls ≡ occurs g ms
occurs-permᴰ g Permᴰ.nil = refl
occurs-permᴰ g (Permᴰ.cons e p) = rw e (rw (occurs-permᴰ g p) refl)
occurs-permᴰ g (Permᴰ.swap e f) = rw e (rw f (ground arith))
occurs-permᴰ g (Permᴰ.trans p q) = occurs-permᴰ g p ∙ occurs-permᴰ g q

get_grouping_value-SameNames :
    (group_by : GroupBy) (names names' : GoMap String String) (id : String) (node : SnapshotNode)
    → ((id : String) → lookup id names ≡ lookup id names')
    → get_grouping_value id node group_by names ≡ get_grouping_value id node group_by names'
unfolding get_grouping_value
get_grouping_value-SameNames unspecified names names' id node h = rw (h id) refl
get_grouping_value-SameNames cluster names names' id node h = rw (h id) refl
get_grouping_value-SameNames product names names' id node h = refl
get_grouping_value-SameNames (unknown n) names names' id node h = refl

module _ (unmarshal : Bytes → Result ClusterSnapshot) (group_by : GroupBy)
    (names names' : GoMap String String)
    (same : (id : String) → lookup id names ≡ lookup id names') where
  key_of-SameNames : key_of group_by names ≡ key_of group_by names'
  key_of-SameNames =
      fun_ext λ h.
        fun_ext λ node. get_grouping_value-SameNames group_by names names' h.cluster_id node same

  -- The keys of the histories in another order.
  pub keyed_histories-permᴰ :
      (hs hs' : List ClusterSnapshotHistory) (ls : List (List (String × SnapshotNode)))
      → Permᴰ hs hs'
      → keyed_histories unmarshal group_by names hs ≡ ok ls
      → (ls' : List (List (String × SnapshotNode))) × (keyed_histories unmarshal group_by names' hs'
          ≡ ok ls')
        × Permᴰ ls ls'
  keyed_histories-permᴰ hs hs' ls p h =
      traverse-permᴰ (keyed (nodes_of unmarshal) (key_of group_by names')) hs hs' ls p
        (ap (λ k. traverse (keyed (nodes_of unmarshal) k) hs) (sym key_of-SameNames) ∙ h)

  pub get_all_grouping_values-permᴰ :
      (hs hs' : List ClusterSnapshotHistory) (gvals : List String)
      (ls ls' : List (List (String × SnapshotNode)))
      → keyed_histories unmarshal group_by names hs ≡ ok ls
      → keyed_histories unmarshal group_by names' hs' ≡ ok ls'
      → Permᴰ ls ls'
      → get_all_grouping_values unmarshal group_by names hs ≡ ok gvals
      → get_all_grouping_values unmarshal group_by names' hs' ≡ ok gvals
  get_all_grouping_values-permᴰ hs hs' gvals ls ls' k k' p e =
      let all' = get_all_grouping_values unmarshal group_by names' hs' in
      let at = λ (g : String). get_all_grouping_values-has unmarshal group_by names' g hs' in
      let (gvals', e', _) =
        map_result_inversion (has "") all' (at "" ∙ ap (map_result (occurs "")) k') in
      let has_same : (g : String) → has g gvals ≡ has g gvals' = λ g. ok-injective (
        ap (map_result (has g)) (sym e)
        ∙ get_all_grouping_values-has unmarshal group_by names g hs
        ∙ ap (map_result (occurs g)) k
        ∙ ap ok (occurs-permᴰ g p)
        ∙ ap (map_result (occurs g)) (sym k')
        ∙ sym (at g)
        ∙ ap (map_result (has g)) e') in
      e'
      ∙ ap ok (
          sym (
            ascending_ext gvals gvals'
              (get_all_grouping_values-IsAscending unmarshal group_by names hs gvals e)
              (get_all_grouping_values-IsAscending unmarshal group_by names' hs' gvals' e')
              has_same))
