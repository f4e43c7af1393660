-- ===== src/Tests/Handler.antt =====
-- Tests of `ListClusterSnapshots`, on a database with two clusters of a tenant.
use cluster_monitor.Prelude.{◌≡◌, refl, some, [], ◌∷◌}
use cluster_monitor.Prelude.Int.{wrap, quot, pos}
use cluster_monitor.Prelude.Order.{string_ord}
use cluster_monitor.Go.Result.{ok, err, status, not_found}
use cluster_monitor.Api.{cluster, ListClusterSnapshotsRequest, ListClusterSnapshotsResponse}
use cluster_monitor.Server.Auth.{UserInfo, fake_user}
use cluster_monitor.Server.Snapshots.{
  calculate_snapshot_values, averages, count_history, respond, get_all_grouping_values, add_node,
}
use cluster_monitor.Server.Snapshots.Handler.{list_cluster_snapshots}
use cluster_monitor.Server.Snapshots.Handler.Laws.{
  Reads, list_cluster_snapshots-not_found, list_cluster_snapshots-Reads,
}
use cluster_monitor.Go.Exec.{◌>>=◌}
use cluster_monitor.Store.{list_cluster_snapshots_by_tenant_id, list_cluster_snapshot_histories}
use cluster_monitor.Server.Window.{get_start_end_time, end_of, start_of}
use cluster_monitor.Go.Time.{truncate, add, unix}
use cluster_monitor.Server.Gather.{gather}
use cluster_monitor.Server.Snapshots.Answer.{answer}
use cluster_monitor.Go.Map.{lookup, assign}
use cluster_monitor.Server.Buckets.{datapoints, fill}
use cluster_monitor.Server.Tally.{tally}
use cluster_monitor.Tests.Samples.{moment, unmarshal, names, history, tables}
use cluster_monitor.Tests.Memory.{memory, memory-IsLawful}

abbrev pub caller : UserInfo
caller = record fake_user { tenant_id = "t1" }

-- The first hour of 2024.
abbrev pub request : ListClusterSnapshotsRequest
request = record {
  filter = some (record { start_timestamp = pos 1704067200; end_timestamp = pos 1704070800 });
  group_by = cluster;
}

-- One cluster has two nodes of 8 GPUs, the other four.
abbrev pub response : ListClusterSnapshotsResponse
response = record {
  datapoints =
      record {
        timestamp = pos 1704067200;
        values =
            record {
              grouping_value = "east";
              node_count = pos 2;
              gpu_capacity = pos 16;
              memory_capacity_gb = pos 8;
              gpu_occupancy = pos 2;
              pod_count = pos 4;
            }
            ∷ record {
              grouping_value = "west";
              node_count = pos 4;
              gpu_capacity = pos 32;
              memory_capacity_gb = pos 16;
              gpu_occupancy = pos 4;
              pod_count = pos 8;
            }
            ∷ [];
      }
      ∷ [];
  cluster_count = pos 2;
}

pub response_runs :
    (list_cluster_snapshots (memory (moment 0)) unmarshal request (some caller) tables).0
    ≡ ok response
unfolding list_cluster_snapshots ◌>>=◌ list_cluster_snapshots_by_tenant_id get_start_end_time end_of
    start_of truncate wrap gather list_cluster_snapshot_histories answer get_all_grouping_values
    lookup assign datapoints calculate_snapshot_values tally fill add unix quot averages add_node
    count_history respond
response_runs = refl

none_found :
    (list_cluster_snapshots_by_tenant_id (memory (moment 0)) fake_user.tenant_id tables).0 ≡ ok []
unfolding list_cluster_snapshots_by_tenant_id
none_found = refl

stranger_run :
    (list_cluster_snapshots (memory (moment 0)) unmarshal request (some fake_user) tables).0
    ≡ err (status not_found)
unfolding list_cluster_snapshots ◌>>=◌ list_cluster_snapshots_by_tenant_id
stranger_run = refl

list_cluster_snapshots-Reads_example :
    Reads (memory (moment 0)) (memory-IsLawful (moment 0)) unmarshal request caller tables response
list_cluster_snapshots-Reads_example =
    list_cluster_snapshots-Reads (memory (moment 0)) (memory-IsLawful (moment 0)) unmarshal request
      caller tables response response_runs

products_run :
    get_all_grouping_values unmarshal cluster names (history "c2" 1 10 ∷ history "c1" 2 20 ∷ [])
    ≡ ok ("east" ∷ "west" ∷ [])
unfolding get_all_grouping_values lookup assign
products_run = refl

list_cluster_snapshots-not_found_example :
    (list_cluster_snapshots (memory (moment 0)) unmarshal request (some fake_user) tables).0
    ≡ err (status not_found)
list_cluster_snapshots-not_found_example =
    list_cluster_snapshots-not_found (memory (moment 0)) (memory-IsLawful (moment 0)) unmarshal
      request fake_user tables [] refl none_found

answered :
    answer unmarshal request (moment 0, moment 3600) (tables.snapshot_histories, names)
    ≡ ok response
unfolding answer get_all_grouping_values lookup assign datapoints calculate_snapshot_values tally
    fill add unix quot wrap truncate averages add_node count_history respond
answered = refl
