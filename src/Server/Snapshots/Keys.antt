-- ===== src/Server/Snapshots/Keys.antt =====
-- What `getAllGroupingValues` returns.
use cluster_monitor.Prelude.{◌≡◌, ◌∙◌, String, List, []}
use cluster_monitor.Prelude.Order.{string_ord}
use cluster_monitor.Go.Result.{
  Result, ok, map_result, bind_inversion, ok-injective, map-bind, bind-ok,
}
use cluster_monitor.Go.Map.{GoMap}
use cluster_monitor.Go.Sort.{IsAscending}
use cluster_monitor.Api.{GroupBy, ClusterSnapshot}
use cluster_monitor.Store.Rows.{Bytes, ClusterSnapshotHistory}
use cluster_monitor.Server.Tally.{note_keys}
use cluster_monitor.Go.Keys.{has}
use cluster_monitor.Server.Tally.Noted.{occurs, sorted_keys-IsAscending, has-note_keys}
use cluster_monitor.Server.Snapshots.{nodes_of, key_of, get_all_grouping_values}
use cluster_monitor.Server.Snapshots.Grouped.{keyed_histories}

module _ (unmarshal : Bytes → Result ClusterSnapshot) (group_by : GroupBy)
    (names : GoMap String String) where
  -- The grouping values that getAllGroupingValues returns are in strictly ascending order, so none
  -- comes twice.
  pub get_all_grouping_values-IsAscending :
      (hs : List ClusterSnapshotHistory) (gvals : List String)
      → get_all_grouping_values unmarshal group_by names hs ≡ ok gvals
      → IsAscending gvals
  unfolding get_all_grouping_values
  get_all_grouping_values-IsAscending hs gvals e =
      let noted = note_keys (nodes_of unmarshal) (key_of group_by names) [] hs in
      let (m, done, k) = bind_inversion noted _ e in
      rw (← ok-injective k)
        (sorted_keys-IsAscending (nodes_of unmarshal) (key_of group_by names) hs done)

  -- getAllGroupingValues returns a grouping value exactly when some node of some history has it,
  -- and fails just as the computation of the grouping values of the nodes does.
  pub get_all_grouping_values-has :
      (gval : String) (hs : List ClusterSnapshotHistory)
      → map_result (has gval) (get_all_grouping_values unmarshal group_by names hs)
        ≡ map_result (occurs gval) (keyed_histories unmarshal group_by names hs)
  unfolding get_all_grouping_values
  get_all_grouping_values-has gval hs =
      map-bind (has gval) (note_keys (nodes_of unmarshal) (key_of group_by names) [] hs) _
      ∙ bind-ok (note_keys (nodes_of unmarshal) (key_of group_by names) [] hs) _
      ∙ has-note_keys (nodes_of unmarshal) (key_of group_by names) gval hs
