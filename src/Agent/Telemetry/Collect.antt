-- ===== src/Agent/Telemetry/Collect.antt =====
-- The calls of the clients around the message.
use cluster_monitor.Prelude.{String, [], List}
use cluster_monitor.Prelude.Int.{ℤ, pos, sub_ℕ, pos_part, neg_part}
use cluster_monitor.Go.Result.{ok}
use cluster_monitor.Go.Exec.{Exec, lift, ◌>>=◌}
use cluster_monitor.Go.Time.{Time, add}
use cluster_monitor.Go.Float.{Float64}
use cluster_monitor.Go.Map.{GoMap}
use cluster_monitor.Api.{Payload, gpu_telemetry}
use cluster_monitor.Agent.Kube.{Node, Client}
use cluster_monitor.Agent.Dcgm.{
  Prometheus, Range, SampleStream, DcgmMetricSamples, matrix_of, merge_streams, gpu_util_metric,
  gpu_memory_used_metric,
}
use cluster_monitor.Agent.Telemetry.{
  nodes_by_hostname, samples_by_host, build_gpu_telemetry_message,
}

abbrev pub default_prometheus_step : ℤ
default_prometheus_step = pos 30

module _ {S F : Type 0} (prom : Prometheus S F) where
  -- `queryRange`; warnings are logged.
  unfoldable pub query_range : String → Range → Exec S (List (SampleStream F))
  unfolding matrix_of
  query_range query r = do val ← prom.query_range query r; lift (matrix_of val)

  -- `QueryDCGMMetric`
  unfoldable pub query_dcgm_metric : String → Range → Exec S (DcgmMetricSamples F)
  unfolding query_range merge_streams
  query_dcgm_metric metric_name r = do v ← query_range metric_name r; lift (merge_streams v)

  -- `time.Now()`
  abbrev pub time_now : Exec S Time
  time_now s = let (t, s') = prom.now s in (ok t, s')

-- the range of the queries, for a duration in seconds
abbrev pub range_before : Time → ℤ → Range
range_before now metrics_duration = record {
  start = add now (sub_ℕ (neg_part metrics_duration) (pos_part metrics_duration));
  end = now;
  step = default_prometheus_step;
}

module _ {F : Type 0} (float : Float64 F) {Q : Type 0} (client : Client Q)
    (prom : Prometheus client.State float.Carrier) (target_node_selector : GoMap String String)
    (metrics_duration : ℤ) where
  -- `buildHostnameToNodes`
  unfoldable pub build_hostname_to_nodes : Exec client.State (GoMap String (Node Q))
  unfolding nodes_by_hostname
  build_hostname_to_nodes = do
    node_list ← client.list_nodes target_node_selector
    lift (ok (nodes_by_hostname [] node_list))

  -- the two queries, and the message of their samples
  unfoldable pub measure : Time → GoMap String (Node Q) → Exec client.State (Payload F)
  unfolding query_dcgm_metric samples_by_host build_gpu_telemetry_message
  measure now nodes = do
    util ← query_dcgm_metric prom gpu_util_metric (range_before now metrics_duration)
    mem ← query_dcgm_metric prom gpu_memory_used_metric (range_before now metrics_duration)
    lift (
        ok (
          gpu_telemetry (record {
            nodes =
                build_gpu_telemetry_message float (samples_by_host [] util) (samples_by_host [] mem)
                  nodes;
          })))

  -- `collect` of the GPU telemetry collector
  unfoldable pub collect : Exec client.State (Payload F)
  unfolding build_hostname_to_nodes measure
  collect = do now ← time_now prom; nodes ← build_hostname_to_nodes; measure now nodes
