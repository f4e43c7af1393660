-- ===== src/Server/Snapshots/Grouped.antt =====
-- What `calculateSnapshotValues` returns, against a description that has no map: for each key, the
-- mean over the histories that name it, computed from the nodes of that key.
use mathlib.Core.Option
use mathlib.Core.Path.{subst}
use cluster_monitor.Prelude.{
  ◌^◌, ◌<◌, ◌≡◌, ◌≢◌, refl, sym, ap, ◌∙◌, String, Option, none, List, [], ◌∷◌, map, arith, length,
  length-map, ◌+◌,
}
use cluster_monitor.Prelude.Order.{string_ord}
use cluster_monitor.Go.Result.{
  Result, ok, map_result, traverse, ◌>>=◌, length-traverse, bind_congr, map_pointwise, bind-ok,
}
use cluster_monitor.Go.Map.{
  GoMap, lookup, map_values, AllValues, lookup-map_values, AllValues-of_lookup,
}
use cluster_monitor.Api.{
  GroupBy, unspecified, cluster, product, unknown, SnapshotNode, ClusterSnapshot, SnapshotValue,
}
use cluster_monitor.Store.Rows.{Bytes, ClusterSnapshotHistory}
use cluster_monitor.Server.Tally.{tally}
use cluster_monitor.Server.Tally.Groups.{mine, after_histories, keyed, tally-lookup}
use cluster_monitor.Server.Tally.Keys.{tally-IsUnrepeated}
use cluster_monitor.Server.Snapshots.{
  Stat, snapshot_figures, averages, value_of, grouped, respond, nodes_of, key_of,
  calculate_snapshot_values,
}
use cluster_monitor.Server.Snapshots.Averages.{
  mean, Counts, AllCount, averages-eq-means, after_histories-AllCount,
}

-- The value of the key `g`, from the nodes of each history with their keys.
abbrev pub group_value : List (List (String × SnapshotNode)) → String → SnapshotValue
group_value ls g =
    value_of g (Option.map mean (after_histories snapshot_figures none (map (mine g) ls)))

abbrev pub IsGrouped : GroupBy → Type 0
IsGrouped g = g ≢ unspecified

respond-eq-grouped :
    (g : GroupBy) (gvals : List String) (stats : GoMap String Stat)
    → IsGrouped g
    → respond g gvals stats ≡ grouped stats gvals
unfolding respond
respond-eq-grouped unspecified gvals stats by = absurd (by refl)
respond-eq-grouped cluster gvals stats by = refl
respond-eq-grouped product gvals stats by = refl
respond-eq-grouped (unknown n) gvals stats by = refl

module _ (unmarshal : Bytes → Result ClusterSnapshot) (group_by : GroupBy)
    (names : GoMap String String) where
  -- The keys of all nodes, history by history.
  abbrev pub keyed_histories :
      List ClusterSnapshotHistory → Result (List (List (String × SnapshotNode)))
  keyed_histories = traverse (keyed (nodes_of unmarshal) (key_of group_by names))

  abbrev pub sums : List ClusterSnapshotHistory → Result (GoMap String Stat)
  sums = tally snapshot_figures (nodes_of unmarshal) (key_of group_by names) []

  -- The stat of every key at once.
  pub sums_at :
      (hs : List ClusterSnapshotHistory)
      → map_result {B = String → Option Stat} (λ m g. lookup g m) (sums hs)
        ≡ map_result {B = String → Option Stat}
            (λ ls g. after_histories snapshot_figures none (map (mine g) ls))
            (keyed_histories hs)
  unfolding lookup
  sums_at hs =
      map_pointwise (λ g m. lookup g m)
        (λ g ls. after_histories snapshot_figures none (map (mine g) ls)) "" (sums hs)
        (keyed_histories hs)
        (λ g. tally-lookup snapshot_figures (nodes_of unmarshal) (key_of group_by names) g [] hs)

  module _ (hs : List ClusterSnapshotHistory) (few : length hs < 2 ^ 31) (m : GoMap String Stat)
      (ls : List (List (String × SnapshotNode))) (summed : sums hs ≡ ok m)
      (listed : keyed_histories hs ≡ ok ls)
      (at : (g : String)
        → lookup g m ≡ after_histories snapshot_figures none (map (mine g) ls)) where
    size : (g : String) → 0 + length (map (mine g) ls) ≡ length hs
    size g = omega (
      arith,
      length-map (mine g) ls,
      length-traverse (keyed (nodes_of unmarshal) (key_of group_by names)) hs listed,
    )

    -- No stat of the map counts no history.
    all_count : AllValues (Counts (length hs)) m
    all_count =
        AllValues-of_lookup (Counts (length hs)) m
          (tally-IsUnrepeated snapshot_figures (nodes_of unmarshal) (key_of group_by names) hs []
            summed tt)
          λ g s e. subst (AllCount (length hs)) (sym (at g) ∙ e) (
            subst (λ n. AllCount n (after_histories snapshot_figures none (map (mine g) ls)))
              (size g)
              (after_histories-AllCount 0 none (map (mine g) ls) (omega (arith, size g)) tt))

    pub means : averages m ≡ ok (map_values mean m)
    means = averages-eq-means (length hs) m all_count

    grouped-eq-group_values :
        (gvals : List String) → grouped (map_values mean m) gvals ≡ map (group_value ls) gvals
    unfolding grouped
    grouped-eq-group_values [] = refl
    grouped-eq-group_values (g ∷ gvals) =
        rw (lookup-map_values mean g m) (rw (at g) (rw (grouped-eq-group_values gvals)))

  pub calculate_snapshot_values-eq-group_values :
      (all_gvals : List String) (hs : List ClusterSnapshotHistory)
      → IsGrouped group_by
      → length hs < 2 ^ 31
      → calculate_snapshot_values unmarshal group_by names all_gvals hs
        ≡ map_result (λ ls. map (group_value ls) all_gvals) (keyed_histories hs)
  unfolding calculate_snapshot_values
  calculate_snapshot_values-eq-group_values all_gvals hs by few =
      bind_congr (λ m g. lookup g m)
        (λ ls g. after_histories snapshot_figures none (map (mine g) ls))
        (λ m. do stats ← averages m; ok (respond group_by all_gvals stats))
        (λ ls. ok (map (group_value ls) all_gvals)) (sums hs) (keyed_histories hs) (sums_at hs)
        (λ m ls e f at.
          let at_key : (g : String)
              → lookup g m ≡ after_histories snapshot_figures none (map (mine g) ls) =
            λ g. ap (λ h. h g) at in
          rw (means hs few m ls e f at_key) (
            ap ok (
              respond-eq-grouped group_by all_gvals (map_values mean m) by
              ∙ grouped-eq-group_values hs few m ls e f at_key all_gvals)))
      ∙ bind-ok (keyed_histories hs) (λ ls. map (group_value ls) all_gvals)
