-- ===== src/Server/Snapshots/Hours.antt =====
-- The response of `ListClusterSnapshots` as a whole, hour by hour.
use mathlib.Core.Path.{fun_ext}
use cluster_monitor.Prelude.{
  ℕ, ◌+◌, ◌*◌, ◌^◌, ◌<◌, ◌≡◌, ap, ◌∙◌, String, List, map, length, length-keep, arith,
}
use cluster_monitor.Prelude.Int.{ℤ, pos, int32}
use cluster_monitor.Prelude.Order.{◌==◌, string_ord, int_ord}
use cluster_monitor.Go.Result.{Result, ok, map_result, traverse, with_status, internal, ◌>>=◌}
use cluster_monitor.Go.Time.{Time, unix}
use cluster_monitor.Go.Map.{GoMap}
use cluster_monitor.Api.{
  SnapshotValue, Datapoint, ClusterSnapshot, ListClusterSnapshotsRequest,
  ListClusterSnapshotsResponse,
}
use cluster_monitor.Store.Rows.{Bytes, ClusterSnapshotHistory}
use cluster_monitor.Server.Buckets.{hour_of}
use cluster_monitor.Server.Buckets.Laws.{
  instant, hours_from, in_hour, hour_datapoint, datapoints-fill,
}
use cluster_monitor.Server.Snapshots.{get_all_grouping_values, calculate_snapshot_values}
use cluster_monitor.Server.Snapshots.Grouped.{
  group_value, keyed_histories, IsGrouped, calculate_snapshot_values-eq-group_values,
}
use cluster_monitor.Server.Snapshots.Answer.{answer}

abbrev created_at : ClusterSnapshotHistory → Time
created_at h = h.history_created_at

few_here :
    (k : ℤ) (hs : List ClusterSnapshotHistory)
    → length hs < 2 ^ 31
    → length (in_hour created_at k hs) < 2 ^ 31
few_here k hs few = omega (arith, length-keep (λ h. hour_of created_at h == k) hs)

module _ (unmarshal : Bytes → Result ClusterSnapshot) (req : ListClusterSnapshotsRequest)
    (names : GoMap String String) where
  -- The values of the keys `gvals`, from the histories of one hour.
  abbrev pub values_of : List String → List ClusterSnapshotHistory → Result (List SnapshotValue)
  values_of gvals hs =
      map_result (λ ls. map (group_value ls) gvals)
        (keyed_histories unmarshal req.group_by names hs)

  abbrev pub in_hours :
      List ClusterSnapshotHistory → List ℕ → List String → Result (List (Datapoint SnapshotValue))
  in_hours hs hours gvals =
      traverse (hour_datapoint (λ h. h.history_created_at) (values_of gvals) hs) hours

  abbrev response : List (Datapoint SnapshotValue) → Result ListClusterSnapshotsResponse
  response dps = ok (record { datapoints = dps; cluster_count = int32 (pos (length names)) })

  abbrev hour_of_values : ℕ → Result (List SnapshotValue) → Result (Datapoint SnapshotValue)
  hour_of_values s r = do
    vs ← with_status internal r
    ok (record { timestamp = unix (instant s); values = vs })

  -- With grouping, fewer than 2^31 histories and a window of whole hours below 2^62 seconds, the
  -- response of ListClusterSnapshots to the histories that it read has one datapoint for each hour
  -- of the window, in order, and each datapoint has, for all grouping values of the whole window,
  -- the means over the histories of just its hour.
  pub answer-eq-in_hours :
      (hs : List ClusterSnapshotHistory) (n s : ℕ)
      → IsGrouped req.group_by
      → length hs < 2 ^ 31
      → s + n * 3600 < 2 ^ 62
      → answer unmarshal req (instant s, instant (s + n * 3600)) (hs, names) ≡ (do
        gvals ← get_all_grouping_values unmarshal req.group_by names hs
        dps ← in_hours hs (hours_from n s) gvals
        ok (record { datapoints = dps; cluster_count = int32 (pos (length names)) }))
  unfolding answer
  answer-eq-in_hours hs n s by few small =
      ap (λ k. get_all_grouping_values unmarshal req.group_by names hs >>= k)
        (fun_ext λ gvals.
          ap (λ r. r >>= response)
            (datapoints-fill (λ h. h.history_created_at)
                (calculate_snapshot_values unmarshal req.group_by names gvals) hs n s small
              ∙ ap (λ f. traverse f (hours_from n s))
                  (fun_ext λ t. ap (hour_of_values t) (
                    calculate_snapshot_values-eq-group_values unmarshal req.group_by names gvals
                      (in_hour created_at (unix (instant t)) hs) by
                      (few_here (unix (instant t)) hs few)))))
