-- ===== src/Server/Codec.antt =====
-- `proto.Marshal` and `proto.Unmarshal` of google.golang.org/protobuf, which the program calls: a
-- parameter of the model.
use cluster_monitor.Prelude.{◌≡◌}
use cluster_monitor.Go.Result.{Result, ok}
use cluster_monitor.Store.Rows.{Bytes}
use cluster_monitor.Api.{ClusterSnapshot, GpuTelemetry}

pub record Codec (F : Type 0) : Type 0 where
  pub marshal_snapshot : ClusterSnapshot → Result Bytes
  pub unmarshal_snapshot : Bytes → Result ClusterSnapshot
  pub marshal_telemetry : GpuTelemetry F → Result Bytes
  pub unmarshal_telemetry : Bytes → Result (GpuTelemetry F)

-- What the library documents: a message that was encoded is decoded to itself.
pub record IsLawful {F : Type 0} (c : Codec F) : Type 0 where
  pub snapshot_again :
      (m : ClusterSnapshot) (b : Bytes)
      → c.marshal_snapshot m ≡ ok b
      → c.unmarshal_snapshot b ≡ ok m
  pub telemetry_again :
      (m : GpuTelemetry F) (b : Bytes)
      → c.marshal_telemetry m ≡ ok b
      → c.unmarshal_telemetry b ≡ ok m
