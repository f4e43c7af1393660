-- ===== src/Server/Usages/Hours.antt =====
-- The response of `ListGpuUsages` as a whole, hour by hour.
use mathlib.Core.Path.{fun_ext}
use cluster_monitor.Prelude.{
  ℕ, ◌+◌, ◌*◌, ◌^◌, ◌<◌, ◌≡◌, ap, ◌∙◌, String, List, map, length, length-keep, arith,
}
use cluster_monitor.Prelude.Int.{ℤ}
use cluster_monitor.Prelude.Order.{◌==◌, string_ord, int_ord, pair_ord}
use cluster_monitor.Go.Result.{Result, ok, map_result, traverse, with_status, internal, ◌>>=◌}
use cluster_monitor.Go.Float.{Float32}
use cluster_monitor.Go.Time.{Time, unix}
use cluster_monitor.Go.Map.{GoMap}
use cluster_monitor.Api.{UsageValue, Datapoint, GpuTelemetry, ListGpuUsagesResponse}
use cluster_monitor.Store.Rows.{Bytes, GpuTelemetryHistory}
use cluster_monitor.Server.Buckets.{hour_of}
use cluster_monitor.Server.Buckets.Laws.{
  instant, hours_from, in_hour, hour_datapoint, datapoints-fill,
}
use cluster_monitor.Server.Usages.{ClusterNode, get_all_cluster_nodes, calculate_gpu_usage_values}
use cluster_monitor.Server.Usages.Listed.{
  node_value, keyed_histories, calculate_gpu_usage_values-eq-node_values,
}
use cluster_monitor.Server.Usages.Answer.{answer}

abbrev created_at : GpuTelemetryHistory → Time
created_at h = h.history_created_at

few_here :
    (k : ℤ) (hs : List GpuTelemetryHistory)
    → length hs < 2 ^ 31
    → length (in_hour created_at k hs) < 2 ^ 31
few_here k hs few = omega (arith, length-keep (λ h. hour_of created_at h == k) hs)

module _ (float : Float32) (unmarshal : Bytes → Result (GpuTelemetry float.Carrier))
    (names : GoMap String String) where
  -- The values of the keys `gvals`, from the histories of one hour.
  abbrev pub values_of :
      List ClusterNode → List GpuTelemetryHistory → Result (List (UsageValue float.Carrier))
  values_of gvals hs =
      map_result (λ ls. map (node_value float ls) gvals) (keyed_histories float unmarshal names hs)

  abbrev pub in_hours :
      List GpuTelemetryHistory
      → List ℕ
      → List ClusterNode
      → Result (List (Datapoint (UsageValue float.Carrier)))
  in_hours hs hours gvals =
      traverse (hour_datapoint (λ h. h.history_created_at) (values_of gvals) hs) hours

  abbrev response :
      List (Datapoint (UsageValue float.Carrier)) → Result (ListGpuUsagesResponse float.Carrier)
  response dps = ok (record { datapoints = dps })

  abbrev hour_of_values :
      ℕ → Result (List (UsageValue float.Carrier)) → Result (Datapoint (UsageValue float.Carrier))
  hour_of_values s r = do
    vs ← with_status internal r
    ok (record { timestamp = unix (instant s); values = vs })

  -- With fewer than 2^31 histories and a window of whole hours below 2^62 seconds, the response of
  -- ListGpuUsages to the histories that it read has one datapoint for each hour of the window, in
  -- order, and each datapoint has, for all nodes of the whole window, the figures of the histories
  -- of just its hour.
  pub usage_answer-eq-in_hours :
      (hs : List GpuTelemetryHistory) (n s : ℕ)
      → length hs < 2 ^ 31
      → s + n * 3600 < 2 ^ 62
      → answer float unmarshal (instant s, instant (s + n * 3600)) (hs, names) ≡ (do
        gvals ← get_all_cluster_nodes float unmarshal names hs
        dps ← in_hours hs (hours_from n s) gvals
        ok (record { datapoints = dps }))
  unfolding answer
  usage_answer-eq-in_hours hs n s few small =
      ap (λ k. get_all_cluster_nodes float unmarshal names hs >>= k)
        (fun_ext λ gvals.
          ap (λ r. r >>= response)
            (datapoints-fill (λ h. h.history_created_at)
                (calculate_gpu_usage_values float unmarshal names gvals) hs n s small
              ∙ ap (λ f. traverse f (hours_from n s))
                  (fun_ext λ t. ap (hour_of_values t) (
                    calculate_gpu_usage_values-eq-node_values float unmarshal names gvals
                      (in_hour created_at (unix (instant t)) hs)
                      (few_here (unix (instant t)) hs few)))))
