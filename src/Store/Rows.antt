-- ===== src/Store/Rows.antt =====
-- The rows that server/internal/store keeps. Of `gorm.Model` the identifier is kept: the database
-- library alone writes and reads the other three fields (CreatedAt, UpdatedAt, DeletedAt).
use cluster_monitor.Prelude.{ℕ, String, List}
use cluster_monitor.Go.Time.{Time}

-- `[]byte`
abbrev pub Bytes : Type 0
Bytes = List ℕ

pub record ClusterSnapshotRow : Type 0 where
  pub id : ℕ
  pub cluster_id : String
  pub name : String
  pub tenant_id : String

pub record ClusterSnapshotHistory : Type 0 where
  pub id : ℕ
  pub cluster_id : String
  pub message : Bytes
  pub history_created_at : Time

pub record GpuTelemetryHistory : Type 0 where
  pub id : ℕ
  pub cluster_id : String
  pub message : Bytes
  pub history_created_at : Time
