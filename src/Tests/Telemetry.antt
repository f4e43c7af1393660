-- ===== src/Tests/Telemetry.antt =====
-- Tests of `SendClusterTelemetry`, with a codec that encodes a message by what is in it.
use cluster_monitor.Prelude.{ℕ, ◌≡◌, refl, true, some, List, [], ◌∷◌}
use cluster_monitor.Go.Result.{Result, ok, err, codec_error, status, invalid_argument}
use cluster_monitor.Api.{
  SnapshotNode, GpuNode, ClusterSnapshot, GpuTelemetry, cluster_snapshot, gpu_telemetry, unset,
  SendClusterTelemetryRequest,
}
use cluster_monitor.Store.Rows.{Bytes}
use cluster_monitor.Go.Exec.{◌>>=◌}
use cluster_monitor.Store.{
  create_or_update_cluster_snapshot, create_cluster_snapshot_history, create_gpu_telemetry_history,
}
use cluster_monitor.Server.Auth.{ClusterInfo, extract_cluster_info}
use cluster_monitor.Server.Codec.{Codec, IsLawful}
use cluster_monitor.Server.Telemetry.{send_cluster_telemetry}
use cluster_monitor.Server.Telemetry.Partial.{Answers, send_cluster_telemetry-Answers}
use cluster_monitor.Server.Telemetry.Success.{send_cluster_telemetry-succeeds}
use cluster_monitor.Tests.Samples.{moment, tables, tables-IsIndexed}
use cluster_monitor.Tests.Memory.{memory, memory-IsLawful, memory-IsUp}

-- Messages without nodes are encoded by no byte; others are refused.
abbrev marshal_snapshot : ClusterSnapshot → Result Bytes
marshal_snapshot m = elim m.nodes [ [] ↦ ok [] | n ∷ ns ↦ err codec_error ]

abbrev marshal_telemetry : GpuTelemetry ℕ → Result Bytes
marshal_telemetry m = elim m.nodes [ [] ↦ ok [] | n ∷ ns ↦ err codec_error ]

abbrev pub codec : Codec ℕ
codec = record {
  marshal_snapshot = marshal_snapshot;
  unmarshal_snapshot = λ b. ok (record { nodes = [] });
  marshal_telemetry = marshal_telemetry;
  unmarshal_telemetry = λ b. ok (record { nodes = [] });
}

snapshot_again :
    (nodes : List SnapshotNode) (b : Bytes)
    → marshal_snapshot (record { nodes = nodes }) ≡ ok b
    → codec.unmarshal_snapshot b ≡ ok (record { nodes = nodes })
snapshot_again [] b h = refl
snapshot_again (n ∷ ns) b h = cc

telemetry_again :
    (nodes : List (GpuNode ℕ)) (b : Bytes)
    → marshal_telemetry (record { nodes = nodes }) ≡ ok b
    → codec.unmarshal_telemetry b ≡ ok (record { nodes = nodes })
telemetry_again [] b h = refl
telemetry_again (n ∷ ns) b h = cc

pub codec-IsLawful : IsLawful codec
codec-IsLawful = record {
  snapshot_again = λ m. snapshot_again m.nodes;
  telemetry_again = λ m. telemetry_again m.nodes;
}

abbrev pub agent : ClusterInfo
agent = record { cluster_id = "c3"; cluster_name = "new"; tenant_id = "t1" }

abbrev request : SendClusterTelemetryRequest ℕ
request = record {
  payloads = cluster_snapshot (record { nodes = [] }) ∷ gpu_telemetry (record { nodes = [] }) ∷ [];
}

-- What precedes an unsupported payload stays stored.
unset_run :
    (send_cluster_telemetry
      (memory (moment 0))
      codec
      true
      (some agent)
      (record { payloads = gpu_telemetry (record { nodes = [] }) ∷ unset ∷ [] })
      tables)
    ≡ (
      err (status invalid_argument),
      record tables {
        telemetry_histories =
            record { id = 1; cluster_id = "c3"; message = []; history_created_at = moment 0 } ∷ [];
      },
    )
unfolding send_cluster_telemetry ◌>>=◌ extract_cluster_info create_or_update_cluster_snapshot
    create_cluster_snapshot_history create_gpu_telemetry_history
unset_run = refl

pub agent_extracted : extract_cluster_info true (some agent) ≡ ok agent
unfolding extract_cluster_info
agent_extracted = refl

abbrev half_request : SendClusterTelemetryRequest ℕ
half_request = record {
  payloads =
      gpu_telemetry (record { nodes = [] }) ∷ unset ∷ cluster_snapshot (record { nodes = [] }) ∷ [];
}

send_cluster_telemetry-Answers_example :
    Answers
      (memory (moment 0))
      codec
      agent
      half_request.payloads
      tables
      (send_cluster_telemetry (memory (moment 0)) codec true (some agent) half_request tables).1
      (send_cluster_telemetry (memory (moment 0)) codec true (some agent) half_request tables).0
send_cluster_telemetry-Answers_example =
    send_cluster_telemetry-Answers (memory (moment 0)) (memory-IsLawful (moment 0)) codec
      codec-IsLawful agent true (some agent) half_request tables agent_extracted tables-IsIndexed

send_cluster_telemetry-succeeds_example :
    (send_cluster_telemetry (memory (moment 0)) codec true (some agent) request tables).0 ≡ ok tt
send_cluster_telemetry-succeeds_example =
    send_cluster_telemetry-succeeds (memory (moment 0)) (memory-IsLawful (moment 0))
      (memory-IsUp (moment 0)) codec codec-IsLawful true agent (some agent) request tables
      agent_extracted (λ e. cc) (([], refl), (([], refl), tt)) tables-IsIndexed
