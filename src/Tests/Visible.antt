-- ===== src/Tests/Visible.antt =====
-- A snapshot that an agent sends, and a query behind it.
use cluster_monitor.Server.Tally.{tally}
use cluster_monitor.Server.Buckets.{datapoints, fill}
use cluster_monitor.Go.Map.{lookup, assign}
use cluster_monitor.Server.Snapshots.{
  calculate_snapshot_values, averages, respond, get_all_grouping_values,
}
use cluster_monitor.Server.Snapshots.Answer.{answer}
use cluster_monitor.Server.Gather.{gather}
use cluster_monitor.Go.Time.{truncate, add, unix}
use cluster_monitor.Server.Window.{get_start_end_time, end_of, start_of}
use cluster_monitor.Store.{
  list_cluster_snapshots_by_tenant_id, list_cluster_snapshot_histories,
  create_cluster_snapshot_history, create_or_update_cluster_snapshot,
}
use cluster_monitor.Prelude.{◌≡◌, refl, true, some, [], ◌∷◌}
use cluster_monitor.Prelude.Int.{wrap, pos}
use cluster_monitor.Prelude.Order.{string_ord}
use cluster_monitor.Go.Result.{ok}
use cluster_monitor.Go.Exec.{◌>>=◌}
use cluster_monitor.Api.{
  ClusterSnapshot, cluster_snapshot, cluster, ListClusterSnapshotsRequest,
  ListClusterSnapshotsResponse,
}
use cluster_monitor.Store.Database.{Tables}
use cluster_monitor.Agent.Loop as Loop
use cluster_monitor.Server.Auth.{extract_cluster_info, UserInfo, fake_user}
use cluster_monitor.Server.Telemetry.{send_cluster_telemetry}
use cluster_monitor.Server.Snapshots.Handler.{list_cluster_snapshots}
use cluster_monitor.Server.Visible.{Shows, send_cluster_telemetry-Shows}
use cluster_monitor.Tests.Samples.{moment, tables, tables-IsIndexed}
use cluster_monitor.Tests.Memory.{memory, memory-IsLawful}
use cluster_monitor.Tests.Telemetry.{codec, codec-IsLawful, agent, agent_extracted}

abbrev pub caller : UserInfo
caller = record fake_user { tenant_id = "t1" }

abbrev pub snapshot : ClusterSnapshot
snapshot = record { nodes = [] }

abbrev pub request : ListClusterSnapshotsRequest
request = record {
  filter = some (record { start_timestamp = pos 1704067200; end_timestamp = pos 1704070800 });
  group_by = cluster;
}

abbrev sent : Tables
sent =
    (send_cluster_telemetry (memory (moment 0)) codec true (some agent)
      (Loop.request (cluster_snapshot snapshot)) tables).1

abbrev pub response : ListClusterSnapshotsResponse
response = record {
  datapoints = record { timestamp = pos 1704067200; values = [] } ∷ [];
  cluster_count = pos 3;
}

send_runs :
    (send_cluster_telemetry
      (memory (moment 0))
      codec
      true
      (some agent)
      (Loop.request (cluster_snapshot snapshot))
      tables).0
    ≡ ok tt
unfolding send_cluster_telemetry ◌>>=◌ extract_cluster_info create_or_update_cluster_snapshot
    create_cluster_snapshot_history
send_runs = refl

query_runs :
    (list_cluster_snapshots
      (memory (moment 0))
      codec.unmarshal_snapshot
      request
      (some caller)
      sent).0
    ≡ ok response
unfolding list_cluster_snapshots ◌>>=◌ list_cluster_snapshots_by_tenant_id send_cluster_telemetry
    extract_cluster_info create_or_update_cluster_snapshot create_cluster_snapshot_history
    get_start_end_time end_of start_of truncate wrap gather list_cluster_snapshot_histories answer
    get_all_grouping_values lookup assign datapoints calculate_snapshot_values tally fill add unix
    averages respond
query_runs = refl

send_cluster_telemetry-Shows_example :
    Shows
      (memory (moment 0))
      (memory-IsLawful (moment 0))
      codec
      codec-IsLawful
      caller
      agent
      snapshot
      request
      tables
      sent
      response
send_cluster_telemetry-Shows_example =
    send_cluster_telemetry-Shows (memory (moment 0)) (memory-IsLawful (moment 0)) codec
      codec-IsLawful caller agent snapshot request true (some agent) tables response agent_extracted
      tables-IsIndexed refl send_runs query_runs
