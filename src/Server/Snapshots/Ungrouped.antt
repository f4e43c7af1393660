-- ===== src/Server/Snapshots/Ungrouped.antt =====
-- Where nothing is grouped, the sum over all nodes does not depend on the order of the histories.
use mathlib.Core.List.{Permᴰ}
use mathlib.Core.List.Perm
use mathlib.Core.List.Permᴰ
use cluster_monitor.Prelude.{
  ◌^◌, ◌<◌, ◌≡◌, refl, sym, ap, ◌∙◌, String, none, List, [], ◌∷◌, map, length,
}
use cluster_monitor.Prelude.Order.{string_ord}
use cluster_monitor.Go.Result.{Result, ok, map_result}
use cluster_monitor.Go.Traverse.{map_result_inversion}
use cluster_monitor.Go.Map.{GoMap, values, keys, lookup, map_values}
use cluster_monitor.Go.Keys.{values-perm}
use cluster_monitor.Go.Sort.{IsUnrepeated}
use cluster_monitor.Api.{unspecified, SnapshotNode, ClusterSnapshot}
use cluster_monitor.Store.Rows.{Bytes, ClusterSnapshotHistory}
use cluster_monitor.Server.Tally.Groups.{mine, after_histories}
use cluster_monitor.Server.Tally.Keys.{tally-IsUnrepeated}
use cluster_monitor.Server.Tally.Order.{Commutes, after_histories-permᴰ}
use cluster_monitor.Server.Snapshots.{
  Stat, no_stat, snapshot_figures, nodes_of, key_of, aggregate, no_value, respond,
  calculate_snapshot_values,
}
use cluster_monitor.Server.Snapshots.Averages.{mean}
use cluster_monitor.Server.Snapshots.Iteration.{aggregate-perm}
use cluster_monitor.Server.Snapshots.Grouped.{keyed_histories, sums, sums_at, means}

values-map_values :
    (f : Stat → Stat) (m : GoMap String Stat) → values (map_values f m) ≡ map f (values m)
unfolding map_values
values-map_values f [] = refl
values-map_values f ((k, s) ∷ m) = ap (λ l. f s ∷ l) (values-map_values f m)

module _ (unmarshal : Bytes → Result ClusterSnapshot) (names : GoMap String String)
    (hs : List ClusterSnapshotHistory) (ls : List (List (String × SnapshotNode)))
    (listed : keyed_histories unmarshal unspecified names hs ≡ ok ls)
    (few : length hs < 2 ^ 31) where
  -- The stats of the histories, and the response that is made of them.
  pub record Summed : Type 0 where
    pub stats : GoMap String Stat
    pub unrepeated : IsUnrepeated (keys stats)
    pub at : (g : String) → lookup g stats ≡ after_histories snapshot_figures none (map (mine g) ls)
    pub value :
        (gvals : List String)
        → calculate_snapshot_values unmarshal unspecified names gvals hs
          ≡ ok (aggregate (no_value "") (map mean (values stats)) ∷ [])

  pub summed : Summed
  unfolding calculate_snapshot_values respond
  summed =
      let (m, e, f) =
        map_result_inversion (λ m g. lookup g m) (sums unmarshal unspecified names hs)
          (sums_at unmarshal unspecified names hs ∙ ap (map_result _) listed) in
      let at : (g : String) → lookup g m ≡ after_histories snapshot_figures none (map (mine g) ls) =
        λ g. ap (λ h. h g) f in
      record {
        stats = m;
        unrepeated =
            tally-IsUnrepeated snapshot_figures (nodes_of unmarshal) (key_of unspecified names) hs
              [] e tt;
        at = at;
        value = λ gvals. rw e (
            rw (means unmarshal unspecified names hs few m ls e listed at)
              (ap (λ l. ok (aggregate (no_value "") l ∷ [])) (values-map_values mean m)));
      }

module _ (unmarshal : Bytes → Result ClusterSnapshot) (comm : Commutes snapshot_figures)
    (names names' : GoMap String String) where
  pub ungrouped-permᴰ :
      (gvals : List String) (hs hs' : List ClusterSnapshotHistory)
      (ls ls' : List (List (String × SnapshotNode)))
      → keyed_histories unmarshal unspecified names hs ≡ ok ls
      → keyed_histories unmarshal unspecified names' hs' ≡ ok ls'
      → length hs < 2 ^ 31
      → length hs' < 2 ^ 31
      → Permᴰ ls ls'
      → calculate_snapshot_values unmarshal unspecified names gvals hs
        ≡ calculate_snapshot_values unmarshal unspecified names' gvals hs'
  ungrouped-permᴰ gvals hs hs' ls ls' e e' few few' p =
      let a = summed unmarshal names hs ls e few in
      let b = summed unmarshal names' hs' ls' e' few' in
      let same : (g : String) → lookup g a.stats ≡ lookup g b.stats = λ g.
        a.at g
        ∙ after_histories-permᴰ snapshot_figures comm none (Permᴰ.map (mine g) p)
        ∙ sym (b.at g) in
      a.value gvals
      ∙ ap (λ v. ok (v ∷ []))
          (aggregate-perm (map mean (values a.stats)) (map mean (values b.stats)) (no_value "")
            (Perm.map mean (values-perm no_stat a.stats b.stats a.unrepeated b.unrepeated same)))
      ∙ sym (b.value gvals)
