-- ===== src/Tests/Shown.antt =====
-- Queries behind a round of an agent.
use cluster_monitor.Prelude.{ℕ, ◌≡◌, refl, true, some, [], ◌∷◌}
use cluster_monitor.Prelude.Order.{string_ord}
use cluster_monitor.Go.Result.{ok}
use cluster_monitor.Go.Exec.{◌>>=◌}
use cluster_monitor.Api.{ListGpuUsagesRequest, ListGpuUsagesResponse}
use cluster_monitor.Prelude.Int.{pos, wrap}
use cluster_monitor.Store.{
  create_or_update_cluster_snapshot, create_cluster_snapshot_history, create_gpu_telemetry_history,
}
use cluster_monitor.Store.Database.{of_cluster}
use cluster_monitor.Store.Rows.{ClusterSnapshotRow}
use cluster_monitor.Server.Auth.{extract_cluster_info}
use cluster_monitor.Server.Telemetry.{send_cluster_telemetry}
use cluster_monitor.Server.Snapshots.Handler.{list_cluster_snapshots}
use cluster_monitor.Server.Snapshots.Handler.Laws.{clusters_of}
use cluster_monitor.Server.Usages.Handler.{list_gpu_usages}
use cluster_monitor.Pipeline.Shown.{
  ShowsSnapshots, ShowsUsages, Run-ShowsSnapshots, Run-ShowsUsages,
}
use cluster_monitor.Tests.Samples.{row, moment, tables, tables-IsIndexed}
use cluster_monitor.Tests.Visible.{caller, response, request as asked}
use cluster_monitor.Tests.Memory.{memory-IsLawful}
use cluster_monitor.Tests.Telemetry.{codec, codec-IsLawful, agent, agent_extracted}
use cluster_monitor.Tests.Pipeline.{
  float, db, link, link-IsLink, collect_snapshot, collect_telemetry, all_sent, round_done, run_on,
}
use cluster_monitor.Store.{
  list_cluster_snapshots_by_tenant_id, list_cluster_snapshot_histories,
  list_gpu_telemetry_histories,
}
use cluster_monitor.Server.Tally.{tally}
use cluster_monitor.Server.Buckets.{datapoints, fill}
use cluster_monitor.Go.Map.{lookup, assign}
use cluster_monitor.Server.Snapshots.{
  calculate_snapshot_values, averages, respond, get_all_grouping_values,
}
use cluster_monitor.Server.Snapshots.Answer.{answer}
use cluster_monitor.Server.Usages.Answer.{answer as usage_answer}
use cluster_monitor.Server.Usages.{calculate_gpu_usage_values, get_all_cluster_nodes, listed}
use cluster_monitor.Server.Usages.{averages as usage_averages}
use cluster_monitor.Server.Gather.{gather}
use cluster_monitor.Go.Time.{truncate, add, unix}
use cluster_monitor.Server.Window.{get_start_end_time, end_of, start_of}
use cluster_monitor.Prelude.Order.{string_ord}

abbrev usages : ListGpuUsagesRequest
usages = record {
  filter = some (record { start_timestamp = pos 1704067200; end_timestamp = pos 1704070800 });
}

abbrev usages_shown : ListGpuUsagesResponse ℕ
usages_shown = record { datapoints = record { timestamp = pos 1704067200; values = [] } ∷ [] }

registered_now :
    (r : ClusterSnapshotRow) × (of_cluster "c3" (clusters_of caller.tenant_id all_sent) ≡ r ∷ [])
unfolding send_cluster_telemetry ◌>>=◌ extract_cluster_info create_or_update_cluster_snapshot
    create_cluster_snapshot_history create_gpu_telemetry_history
registered_now = (row 4 "c3" "new" "t1", refl)

snapshots_listed :
    (list_cluster_snapshots db codec.unmarshal_snapshot asked (some caller) all_sent).0
    ≡ ok response
unfolding list_cluster_snapshots ◌>>=◌ list_cluster_snapshots_by_tenant_id send_cluster_telemetry
    extract_cluster_info create_or_update_cluster_snapshot create_cluster_snapshot_history
    get_start_end_time end_of start_of truncate wrap gather list_cluster_snapshot_histories answer
    get_all_grouping_values lookup assign datapoints calculate_snapshot_values tally fill add unix
    averages respond create_gpu_telemetry_history
snapshots_listed = refl

usages_listed :
    (list_gpu_usages db float codec.unmarshal_telemetry usages (some caller) all_sent).0
    ≡ ok usages_shown
unfolding list_gpu_usages ◌>>=◌ list_cluster_snapshots_by_tenant_id send_cluster_telemetry
    extract_cluster_info create_or_update_cluster_snapshot create_cluster_snapshot_history
    create_gpu_telemetry_history get_start_end_time end_of start_of truncate wrap gather
    list_gpu_telemetry_histories usage_answer get_all_cluster_nodes lookup assign datapoints
    calculate_gpu_usage_values tally fill add unix usage_averages listed
usages_listed = refl

Run-ShowsSnapshots_example :
    ShowsSnapshots db
      (memory-IsLawful (moment 0))
      float
      codec
      codec-IsLawful
      (collect_snapshot ∷ collect_telemetry ∷ [])
      link
      link-IsLink
      true
      (some agent)
      agent
      caller
      asked
      (0, tables)
      round_done
      response
Run-ShowsSnapshots_example =
    Run-ShowsSnapshots db (memory-IsLawful (moment 0)) float codec codec-IsLawful
      (collect_snapshot ∷ collect_telemetry ∷ []) link link-IsLink true (some agent) agent caller
      asked (0, tables) round_done response agent_extracted tables-IsIndexed run_on registered_now
      snapshots_listed

Run-ShowsUsages_example :
    ShowsUsages db
      (memory-IsLawful (moment 0))
      float
      codec
      codec-IsLawful
      (collect_snapshot ∷ collect_telemetry ∷ [])
      link
      link-IsLink
      true
      (some agent)
      agent
      caller
      usages
      (0, tables)
      round_done
      usages_shown
Run-ShowsUsages_example =
    Run-ShowsUsages db (memory-IsLawful (moment 0)) float codec codec-IsLawful
      (collect_snapshot ∷ collect_telemetry ∷ []) link link-IsLink true (some agent) agent caller
      usages (0, tables) round_done usages_shown agent_extracted tables-IsIndexed run_on
      registered_now usages_listed
