-- ===== src/Tests/Usages.antt =====
-- Tests of `ListGpuUsages`, where the integers stand for the floating-point numbers.
use cluster_monitor.Prelude.{◌≡◌, refl, some, [], ◌∷◌, map, arith}
use cluster_monitor.Prelude.Int.{ℤ, pos, ◌+ℤ◌, quot, wrap}
use cluster_monitor.Prelude.Order.{string_ord, pair_ord}
use cluster_monitor.Go.Result.{Result, ok, map_result}
use cluster_monitor.Go.Float.{Float32}
use cluster_monitor.Api.{GpuNode, GpuTelemetry, ListGpuUsagesRequest, ListGpuUsagesResponse}
use cluster_monitor.Store.Rows.{Bytes, GpuTelemetryHistory}
use cluster_monitor.Store.Database.{Tables}
use cluster_monitor.Store.{list_cluster_snapshots_by_tenant_id, list_gpu_telemetry_histories}
use cluster_monitor.Go.Exec.{◌>>=◌}
use cluster_monitor.Go.Time.{add, unix, truncate}
use cluster_monitor.Go.Map.{lookup, assign}
use cluster_monitor.Server.Window.{get_start_end_time, end_of, start_of}
use cluster_monitor.Server.Buckets.{fill, datapoints}
use cluster_monitor.Server.Gather.{gather}
use cluster_monitor.Server.Tally.{tally}
use cluster_monitor.Server.Usages.Answer.{answer}
use cluster_monitor.Server.Auth.{UserInfo, fake_user}
use cluster_monitor.Server.Usages.{
  max_int, calculate_gpu_usage_values, get_all_cluster_nodes, averages, add_node, count_history,
  listed,
}
use cluster_monitor.Server.Usages.Listed.{
  keyed_histories, node_value, calculate_gpu_usage_values-eq-node_values,
}
use cluster_monitor.Server.Usages.Handler.{list_gpu_usages}
use cluster_monitor.Server.Usages.Handler.Laws.{Reads, list_gpu_usages-Reads}
use cluster_monitor.Tests.Samples.{moment, names, tables}
use cluster_monitor.Tests.Memory.{memory, memory-IsLawful}

abbrev pub float : Float32
float = record {
  Carrier = ℤ;
  zero = pos 0;
  plus = ◌+ℤ◌;
  divide = quot;
  maximum = max_int;
  of_int = λ n. n;
}

abbrev gpu_node : GpuNode ℤ
gpu_node = record {
  name = "n";
  max_gpu_used = pos 8;
  avg_gpu_used = pos 4;
  max_gpu_memory_used = pos 2147483648;
  avg_gpu_memory_used = pos 1073741824;
}

abbrev pub unmarshal : Bytes → Result (GpuTelemetry ℤ)
unmarshal bs = ok (record { nodes = gpu_node ∷ [] })

abbrev pub message : GpuTelemetryHistory
message = record { id = 1; cluster_id = "c1"; message = []; history_created_at = moment 10 }

calculate_gpu_usage_values-eq-node_values_example :
    calculate_gpu_usage_values float unmarshal names (("east", "n") ∷ []) (message ∷ message ∷ [])
    ≡ map_result
        (λ ls. map (node_value float ls) (("east", "n") ∷ []))
        (keyed_histories float unmarshal names (message ∷ message ∷ []))
calculate_gpu_usage_values-eq-node_values_example =
    calculate_gpu_usage_values-eq-node_values float unmarshal names (("east", "n") ∷ [])
      (message ∷ message ∷ []) (omega arith)

abbrev caller : UserInfo
caller = record fake_user { tenant_id = "t1" }

-- The first hour of 2024.
abbrev first_hour : ListGpuUsagesRequest
first_hour = record {
  filter = some (record { start_timestamp = pos 1704067200; end_timestamp = pos 1704070800 });
}

abbrev response : ListGpuUsagesResponse ℤ
response = record {
  datapoints =
      record {
        timestamp = pos 1704067200;
        values =
            record {
              cluster_name = "east";
              node_name = "n";
              max_gpu_used = pos 8;
              avg_gpu_used = pos 4;
              max_gpu_memory_used_gb = pos 2;
              avg_gpu_memory_used_gb = pos 1;
            }
            ∷ [];
      }
      ∷ [];
}

abbrev with_messages : Tables
with_messages = record tables { telemetry_histories = message ∷ message ∷ [] }

response_runs :
    (list_gpu_usages (memory (moment 0)) float unmarshal first_hour (some caller) with_messages).0
    ≡ ok response
unfolding list_gpu_usages ◌>>=◌ list_cluster_snapshots_by_tenant_id get_start_end_time end_of
    start_of truncate wrap gather list_gpu_telemetry_histories answer get_all_cluster_nodes lookup
    assign datapoints calculate_gpu_usage_values tally fill add unix quot averages add_node
    count_history listed
response_runs = refl

list_gpu_usages-Reads_example :
    Reads
      (memory (moment 0))
      (memory-IsLawful (moment 0))
      float
      unmarshal
      first_hour
      caller
      with_messages
      response
list_gpu_usages-Reads_example =
    list_gpu_usages-Reads (memory (moment 0)) (memory-IsLawful (moment 0)) float unmarshal
      first_hour caller with_messages response response_runs

all_nodes_run :
    get_all_cluster_nodes float unmarshal names (message ∷ message ∷ []) ≡ ok (("east", "n") ∷ [])
unfolding get_all_cluster_nodes lookup assign
all_nodes_run = refl
