-- ===== src/Server/Snapshots/Order.antt =====
-- The response of `ListClusterSnapshots` does not depend on the order of the rows that it read.
use mathlib.Core.List.{Permᴰ}
use mathlib.Core.Path.{fun_ext}
use cluster_monitor.Prelude.{
  ℕ, ◌+◌, ◌*◌, ◌^◌, ◌<◌, ◌≡◌, sym, ap, ◌∙◌, String, List, map, length, length-keep, arith,
}
use cluster_monitor.Prelude.Perms.{keep-permᴰ, length-permᴰ}
use cluster_monitor.Prelude.Int.{pos, int32}
use cluster_monitor.Prelude.Order.{◌==◌, string_ord, int_ord}
use cluster_monitor.Go.Result.{
  Result, ok, map_result, traverse, bind_inversion, internal, with_status, ◌>>=◌,
}
use cluster_monitor.Go.Traverse.{traverse-keep, map_result_inversion}
use cluster_monitor.Go.Keys.{has}
use cluster_monitor.Go.Map.{GoMap}
use cluster_monitor.Go.Time.{Time, unix}
use cluster_monitor.Api.{
  GroupBy, unspecified, cluster, product, unknown, SnapshotNode, ClusterSnapshot, SnapshotValue,
  Datapoint, ListClusterSnapshotsRequest, ListClusterSnapshotsResponse,
}
use cluster_monitor.Store.Rows.{Bytes, ClusterSnapshotHistory}
use cluster_monitor.Server.Tally.Groups.{keyed}
use cluster_monitor.Server.Tally.Noted.{occurs}
use cluster_monitor.Server.Gather.Order.{SameNames}
use cluster_monitor.Server.Buckets.{hour_of}
use cluster_monitor.Server.Buckets.Laws.{
  instant, hours_from, in_hour, hour_datapoint, datapoints-fill,
}
use cluster_monitor.Server.Snapshots.{
  key_of, nodes_of, calculate_snapshot_values, get_all_grouping_values,
}
use cluster_monitor.Server.Snapshots.Grouped.{
  group_value, keyed_histories, IsGrouped, calculate_snapshot_values-eq-group_values,
}
use cluster_monitor.Server.Snapshots.Keys.{get_all_grouping_values-has}
use cluster_monitor.Server.Snapshots.Ungrouped.{ungrouped-permᴰ}
use cluster_monitor.Server.Snapshots.Answer.{answer}
use cluster_monitor.Server.Snapshots.Rekeyed.{
  snapshot_figures-Commutes, group_value-permᴰ, keyed_histories-permᴰ,
  get_all_grouping_values-permᴰ,
}

module _ (unmarshal : Bytes → Result ClusterSnapshot) (names names' : GoMap String String)
    (gvals : List String) (hs hs' : List ClusterSnapshotHistory)
    (ls ls' : List (List (String × SnapshotNode))) (few : length hs < 2 ^ 31)
    (few' : length hs' < 2 ^ 31) (p : Permᴰ ls ls') where
  -- The values of histories in another order are the same, where both can be computed.
  abbrev SameValues : GroupBy → Type 0
  SameValues group_by =
      keyed_histories unmarshal group_by names hs ≡ ok ls
      → keyed_histories unmarshal group_by names' hs' ≡ ok ls'
      → calculate_snapshot_values unmarshal group_by names gvals hs
        ≡ calculate_snapshot_values unmarshal group_by names' gvals hs'

  grouped-permᴰ : (group_by : GroupBy) → IsGrouped group_by → SameValues group_by
  grouped-permᴰ group_by by e e' =
      calculate_snapshot_values-eq-group_values unmarshal group_by names gvals hs by few
      ∙ ap (map_result (λ ls. map (group_value ls) gvals)) e
      ∙ ap (λ f. ok (map f gvals)) (fun_ext λ g. group_value-permᴰ g p)
      ∙ sym (
          calculate_snapshot_values-eq-group_values unmarshal group_by names' gvals hs' by few'
          ∙ ap (map_result (λ ls. map (group_value ls) gvals)) e')

  calculate-permᴰ : (group_by : GroupBy) → SameValues group_by
  calculate-permᴰ unspecified e e' =
      ungrouped-permᴰ unmarshal snapshot_figures-Commutes names names' gvals hs hs' ls ls' e e' few
        few' p
  calculate-permᴰ cluster e e' = grouped-permᴰ cluster (λ z. cc) e e'
  calculate-permᴰ product e e' = grouped-permᴰ product (λ z. cc) e e'
  calculate-permᴰ (unknown n) e e' = grouped-permᴰ (unknown n) (λ z. cc) e e'

-- The datapoint of an hour, from its values.
abbrev dated : ℕ → Result (List SnapshotValue) → Result (Datapoint SnapshotValue)
dated s r = do
  vs ← with_status internal r
  ok (record { timestamp = unix (instant s); values = vs })

module _ (unmarshal : Bytes → Result ClusterSnapshot) (req : ListClusterSnapshotsRequest)
    (names names' : GoMap String String) (same : SameNames names names') where
  abbrev in_hour_of : ℕ → List ClusterSnapshotHistory → List ClusterSnapshotHistory
  in_hour_of s = in_hour (λ h. h.history_created_at) (unix (instant s))

  few_inside :
      (s : ℕ) (hs : List ClusterSnapshotHistory)
      → length hs < 2 ^ 31
      → length (in_hour_of s hs) < 2 ^ 31
  few_inside s hs few =
      omega (arith, length-keep (λ h. hour_of (λ h. h.history_created_at) h == unix (instant s)) hs)

  -- The values of one hour.
  hour-permᴰ :
      (gvals : List String) (hs hs' : List ClusterSnapshotHistory)
      (ls : List (List (String × SnapshotNode))) (s : ℕ)
      → Permᴰ hs hs'
      → length hs < 2 ^ 31
      → keyed_histories unmarshal req.group_by names hs ≡ ok ls
      → calculate_snapshot_values unmarshal req.group_by names gvals (in_hour_of s hs)
        ≡ calculate_snapshot_values unmarshal req.group_by names' gvals (in_hour_of s hs')
  hour-permᴰ gvals hs hs' ls s p few e =
      let inside =
        λ (h : ClusterSnapshotHistory). hour_of (λ h. h.history_created_at) h == unix (instant s) in
      let (ks, k) =
        traverse-keep (keyed (nodes_of unmarshal) (key_of req.group_by names)) inside hs ls e in
      let (ks', k', q) =
        keyed_histories-permᴰ unmarshal req.group_by names names' same.0 (in_hour_of s hs)
          (in_hour_of s hs') ks (keep-permᴰ inside p) k in
      calculate-permᴰ unmarshal names names' gvals (in_hour_of s hs) (in_hour_of s hs') ks ks'
        (few_inside s hs few) (few_inside s hs' (rw (← length-permᴰ p) few)) q req.group_by k k'

  abbrev created_at : ClusterSnapshotHistory → Time
  created_at h = h.history_created_at

  abbrev values_in :
      GoMap String String → List String → List ClusterSnapshotHistory → Result (List SnapshotValue)
  values_in ns gvals = calculate_snapshot_values unmarshal req.group_by ns gvals

  abbrev respond_with :
      GoMap String String → List (Datapoint SnapshotValue) → ListClusterSnapshotsResponse
  respond_with ns dps = record { datapoints = dps; cluster_count = int32 (pos (length ns)) }

  -- The buckets hold the histories of each hour.
  answer-eq-hours :
      (ns : GoMap String String) (hs : List ClusterSnapshotHistory) (n s : ℕ)
      → s + n * 3600 < 2 ^ 62
      → answer unmarshal req (instant s, instant (s + n * 3600)) (hs, ns) ≡ (do
        gvals ← get_all_grouping_values unmarshal req.group_by ns hs
        dps ← traverse (hour_datapoint created_at (values_in ns gvals) hs) (hours_from n s)
        ok (respond_with ns dps))
  unfolding answer
  answer-eq-hours ns hs n s small =
      ap (λ k. get_all_grouping_values unmarshal req.group_by ns hs >>= k)
        (fun_ext λ gvals.
          ap (λ r. r >>= λ dps. ok (respond_with ns dps))
            (datapoints-fill created_at (values_in ns gvals) hs n s small))

  pub answer-permᴰ :
      (hs hs' : List ClusterSnapshotHistory) (n s : ℕ) (resp : ListClusterSnapshotsResponse)
      → length hs < 2 ^ 31
      → s + n * 3600 < 2 ^ 62
      → answer unmarshal req (instant s, instant (s + n * 3600)) (hs, names) ≡ ok resp
      → Permᴰ hs hs'
      → answer unmarshal req (instant s, instant (s + n * 3600)) (hs', names') ≡ ok resp
  answer-permᴰ hs hs' n s resp few small h p =
      let h' = sym (answer-eq-hours names hs n s small) ∙ h in
      let all = get_all_grouping_values unmarshal req.group_by names hs in
      let (gvals, e, h1) = bind_inversion all _ h' in
      let at_hours =
        traverse (hour_datapoint created_at (values_in names gvals) hs) (hours_from n s) in
      let (dps, d, h2) = bind_inversion at_hours _ h1 in
      let (ls, k, _) =
        map_result_inversion (occurs "") (keyed_histories unmarshal req.group_by names hs) (
          sym (get_all_grouping_values-has unmarshal req.group_by names "" hs)
          ∙ ap (map_result (has "")) e) in
      let (ls', k', q) =
        keyed_histories-permᴰ unmarshal req.group_by names names' same.0 hs hs' ls p k in
      let e' =
        get_all_grouping_values-permᴰ unmarshal req.group_by names names' same.0 hs hs' gvals ls ls'
          k k' q e in
      let d' : traverse (hour_datapoint created_at (values_in names' gvals) hs') (hours_from n s)
          ≡ ok dps =
        ap (λ f. traverse f (hours_from n s))
          (fun_ext λ t. ap (dated t) (sym (hour-permᴰ gvals hs hs' ls t p few k)))
        ∙ d in
      answer-eq-hours names' hs' n s small
      ∙ rw e' (
          rw d' (
            ap (λ m. ok (record { datapoints = dps; cluster_count = int32 (pos m) })) (sym same.1)
            ∙ h2))
