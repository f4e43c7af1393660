-- ===== src/Tests/Standalone.antt =====
-- Both services without authentication: a snapshot that an agent sends, and a query behind it.
use cluster_monitor.Server.Config.{AuthConfig}
use cluster_monitor.Server.Shell.{
  Context, Network, fake, unguarded, guard_of, worker_guard_of, intercept, intercept_worker,
}
use cluster_monitor.Server.Shell.Standalone.{
  default_info, query_handler, worker_handler, standalone-Shows,
}
use cluster_monitor.Tests.Visible.{snapshot, request}
use cluster_monitor.Server.Tally.{tally}
use cluster_monitor.Server.Buckets.{datapoints, fill}
use cluster_monitor.Go.Map.{lookup, assign}
use cluster_monitor.Server.Snapshots.{
  calculate_snapshot_values, averages, respond, get_all_grouping_values,
}
use cluster_monitor.Server.Snapshots.Answer.{answer}
use cluster_monitor.Server.Gather.{gather}
use cluster_monitor.Go.Time.{truncate, add, unix}
use cluster_monitor.Server.Window.{get_start_end_time, end_of, start_of}
use cluster_monitor.Store.{
  list_cluster_snapshots_by_tenant_id, list_cluster_snapshot_histories,
  create_cluster_snapshot_history, create_or_update_cluster_snapshot,
}
use cluster_monitor.Prelude.{◌≡◌, refl, false, none, [], ◌∷◌}
use cluster_monitor.Prelude.Int.{wrap, pos}
use cluster_monitor.Prelude.Order.{string_ord}
use cluster_monitor.Go.Result.{Result, ok}
use cluster_monitor.Go.Exec.{◌>>=◌}
use cluster_monitor.Api.{cluster_snapshot, ListClusterSnapshotsResponse}
use cluster_monitor.Store.Database.{Tables}
use cluster_monitor.Agent.Loop as Loop
use cluster_monitor.Server.Auth.{extract_cluster_info, fake_user}
use cluster_monitor.Server.Telemetry.{send_cluster_telemetry}
use cluster_monitor.Server.Snapshots.Handler.{list_cluster_snapshots}
use cluster_monitor.Server.Visible.{Shows}
use cluster_monitor.Tests.Samples.{moment, tables, tables-IsIndexed}
use cluster_monitor.Tests.Memory.{memory, memory-IsLawful}
use cluster_monitor.Tests.Telemetry.{codec, codec-IsLawful}

abbrev network : Network Tables
network = record {
  Interceptor = Unit {0};
  new_interceptor = λ addr resource s. (ok tt, s);
  unary = λ ai methods h. h;
  WorkerInterceptor = Unit {0};
  new_worker_interceptor = λ addr s. (ok tt, s);
  worker_unary = λ ai h. h;
  Usage = Unit {0};
  usage_unary = λ u h. h;
  Listener = Unit {0};
  listen = λ port s. (ok tt, s);
}

abbrev config : AuthConfig
config = record { enable = false; rbac_internal_server_addr = "" }

abbrev nobody : Context
nobody = record { user = none; cluster = none }

abbrev sent : Result (Unit {0}) × Tables
sent =
    intercept_worker network unguarded
      (worker_handler (memory (moment 0)) (memory-IsLawful (moment 0)) codec codec-IsLawful network
        unguarded)
      nobody (Loop.request (cluster_snapshot snapshot)) tables

abbrev response : ListClusterSnapshotsResponse
response = record {
  datapoints = record { timestamp = pos 1704067200; values = [] } ∷ [];
  cluster_count = pos 1;
}

guard_runs : (guard_of network config tables).0 ≡ ok fake
unfolding guard_of
guard_runs = refl

worker_guard_runs : (worker_guard_of network config tables).0 ≡ ok unguarded
unfolding worker_guard_of
worker_guard_runs = refl

send_runs : sent.0 ≡ ok tt
unfolding send_cluster_telemetry ◌>>=◌ extract_cluster_info create_or_update_cluster_snapshot
    create_cluster_snapshot_history intercept_worker
send_runs = refl

query_runs :
    (intercept network fake tt
      (query_handler (memory (moment 0)) (memory-IsLawful (moment 0)) codec codec-IsLawful network)
      nobody
      request
      sent.1).0
    ≡ ok response
unfolding list_cluster_snapshots ◌>>=◌ list_cluster_snapshots_by_tenant_id send_cluster_telemetry
    extract_cluster_info create_or_update_cluster_snapshot create_cluster_snapshot_history
    get_start_end_time end_of start_of truncate wrap gather list_cluster_snapshot_histories answer
    get_all_grouping_values lookup assign datapoints calculate_snapshot_values tally fill add unix
    averages respond intercept intercept_worker
query_runs = refl

standalone-Shows_example :
    Shows
      (memory (moment 0))
      (memory-IsLawful (moment 0))
      codec
      codec-IsLawful
      fake_user
      default_info
      snapshot
      request
      tables
      sent.1
      response
standalone-Shows_example =
    standalone-Shows (memory (moment 0)) (memory-IsLawful (moment 0)) codec codec-IsLawful network
      tt (λ ctx req s. refl) config tables tables fake unguarded snapshot request response nobody
      nobody tables refl guard_runs worker_guard_runs tables-IsIndexed refl send_runs query_runs
