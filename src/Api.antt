-- ===== src/Api.antt =====
-- The messages of api/v1 (monitor_server.pb.go, monitor_server_worker.pb.go), without the fields
-- that the protobuf runtime keeps for itself. A pointer to a message is an `Option`; the entries
-- of a repeated field are never nil, since a decoded message has no nil entry.
use cluster_monitor.Prelude.{String, Option, List}
use cluster_monitor.Prelude.Int.{ℤ}

pub record RequestFilter : Type 0 where
  pub start_timestamp : ℤ
  pub end_timestamp : ℤ

-- An enum of proto3 is an int32: a client may send any other number.
pub data GroupBy : Type 0 where
  unspecified cluster product : GroupBy
  unknown : ℤ → GroupBy

pub record ListClusterSnapshotsRequest : Type 0 where
  pub filter : Option RequestFilter
  pub group_by : GroupBy

pub record SnapshotValue : Type 0 where
  pub grouping_value : String
  pub node_count : ℤ
  pub gpu_capacity : ℤ
  pub memory_capacity_gb : ℤ
  pub gpu_occupancy : ℤ
  pub pod_count : ℤ

-- `ListClusterSnapshotsResponse_Datapoint` and `ListGpuUsagesResponse_Datapoint`
pub record Datapoint (V : Type 0) : Type 0 where
  pub timestamp : ℤ
  pub values : List V

pub record ListClusterSnapshotsResponse : Type 0 where
  pub datapoints : List (Datapoint SnapshotValue)
  pub cluster_count : ℤ

pub record ListGpuUsagesRequest : Type 0 where
  pub filter : Option RequestFilter

pub record NvidiaAttributes : Type 0 where
  pub product : String

pub record SnapshotNode : Type 0 where
  pub name : String
  pub gpu_capacity : ℤ
  pub memory_capacity : ℤ
  pub nvidia_attributes : Option NvidiaAttributes
  pub gpu_occupancy : ℤ
  pub pod_count : ℤ

pub record ClusterSnapshot : Type 0 where
  pub nodes : List SnapshotNode

-- `F` is float32.
module _ (F : Type 0) where
  pub record UsageValue : Type 0 where
    pub cluster_name : String
    pub node_name : String
    pub max_gpu_used : F
    pub avg_gpu_used : F
    pub max_gpu_memory_used_gb : F
    pub avg_gpu_memory_used_gb : F

  pub record ListGpuUsagesResponse : Type 0 where
    pub datapoints : List (Datapoint UsageValue)

  pub record GpuNode : Type 0 where
    pub name : String
    pub max_gpu_used : F
    pub avg_gpu_used : F
    pub max_gpu_memory_used : ℤ
    pub avg_gpu_memory_used : ℤ

  pub record GpuTelemetry : Type 0 where
    pub nodes : List GpuNode

  -- The `oneof` of a payload; `unset` is a payload with no message kind.
  pub data Payload : Type 0 where
    cluster_snapshot : ClusterSnapshot → Payload
    gpu_telemetry : GpuTelemetry → Payload
    unset : Payload

  pub record SendClusterTelemetryRequest : Type 0 where
    pub payloads : List Payload
