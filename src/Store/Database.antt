-- ===== src/Store/Database.antt =====
-- The database behind `gorm.DB`, and the clock, which the program calls: a parameter of the model.
-- `IsLawful` states what the documentation of the two says, and no more: the order of the rows that
-- a query returns is left open, and any statement may fail.
use mathlib.Core.List.{Perm}
use cluster_monitor.Prelude.{
  ℕ, ◌≡◌, ◌≢◌, Bool, List, [], ◌∷◌, ◌++◌, map, keep, if◌then◌else◌, String, eqb,
}
use cluster_monitor.Prelude.Order.{◌==◌, string_ord}
use cluster_monitor.Go.Result.{ok, err, record_not_found}
use cluster_monitor.Go.Time.{Time}
use cluster_monitor.Go.Exec.{Exec}
use cluster_monitor.Store.Rows.{ClusterSnapshotRow, ClusterSnapshotHistory, GpuTelemetryHistory}

-- What the three tables hold.
pub record Tables : Type 0 where
  pub snapshots : List ClusterSnapshotRow
  pub snapshot_histories : List ClusterSnapshotHistory
  pub telemetry_histories : List GpuTelemetryHistory

pub record Db : Type 1 where
  pub State : Type 0
  pub tables : State → Tables
  -- `time.Now()`
  pub now : State → Time × State
  -- `db.Where(…).Take(&row)`, `db.Where(…).Find(&rows)`, `db.Create(row)`, `db.Save(row)`
  pub take_snapshot : (ClusterSnapshotRow → Bool) → Exec State ClusterSnapshotRow
  pub find_snapshots : (ClusterSnapshotRow → Bool) → Exec State (List ClusterSnapshotRow)
  pub create_snapshot : ClusterSnapshotRow → Exec State (Unit {0})
  pub save_snapshot : ClusterSnapshotRow → Exec State (Unit {0})
  pub find_snapshot_histories :
      (ClusterSnapshotHistory → Bool) → Exec State (List ClusterSnapshotHistory)
  pub save_snapshot_history : ClusterSnapshotHistory → Exec State (Unit {0})
  pub find_telemetry_histories :
      (GpuTelemetryHistory → Bool) → Exec State (List GpuTelemetryHistory)
  pub save_telemetry_history : GpuTelemetryHistory → Exec State (Unit {0})

-- The rows of one cluster; the tag `uniqueIndex` lets there be one at most.
abbrev pub of_cluster : String → List ClusterSnapshotRow → List ClusterSnapshotRow
of_cluster id = keep (λ r. r.cluster_id == id)

-- The rows with a primary key.
abbrev pub with_id : ℕ → List ClusterSnapshotRow → List ClusterSnapshotRow
with_id k = keep (λ r. eqb r.id k)

-- The rows, with the new values in the row of the same primary key.
abbrev pub replace : ClusterSnapshotRow → List ClusterSnapshotRow → List ClusterSnapshotRow
replace row = map (λ r. if eqb r.id row.id then row else r)

pub record IsLawful (db : Db) : Type 0 where
  pub now_frame : (s : db.State) → db.tables (db.now s).1 ≡ db.tables s
  -- A query changes nothing.
  pub take_frame :
      (p : ClusterSnapshotRow → Bool) (s : db.State)
      → db.tables (db.take_snapshot p s).1 ≡ db.tables s
  pub find_frame :
      (p : ClusterSnapshotRow → Bool) (s : db.State)
      → db.tables (db.find_snapshots p s).1 ≡ db.tables s
  pub find_snapshot_histories_frame :
      (p : ClusterSnapshotHistory → Bool) (s : db.State)
      → db.tables (db.find_snapshot_histories p s).1 ≡ db.tables s
  pub find_telemetry_histories_frame :
      (p : GpuTelemetryHistory → Bool) (s : db.State)
      → db.tables (db.find_telemetry_histories p s).1 ≡ db.tables s
  -- `Take` returns a row that meets the condition, or ErrRecordNotFound if there is none.
  pub take_ok :
      (p : ClusterSnapshotRow → Bool) (s : db.State) (r : ClusterSnapshotRow)
      → (db.take_snapshot p s).0 ≡ ok r
      → (before after : List ClusterSnapshotRow) × (keep p (db.tables s).snapshots
          ≡ before ++ r ∷ after)
  pub take_missing :
      (p : ClusterSnapshotRow → Bool) (s : db.State)
      → (db.take_snapshot p s).0 ≡ err record_not_found
      → keep p (db.tables s).snapshots ≡ []
  -- `Find` returns the rows that meet the condition.
  pub find_ok :
      (p : ClusterSnapshotRow → Bool) (s : db.State) (rs : List ClusterSnapshotRow)
      → (db.find_snapshots p s).0 ≡ ok rs
      → Perm rs (keep p (db.tables s).snapshots)
  pub find_snapshot_histories_ok :
      (p : ClusterSnapshotHistory → Bool) (s : db.State) (rs : List ClusterSnapshotHistory)
      → (db.find_snapshot_histories p s).0 ≡ ok rs
      → Perm rs (keep p (db.tables s).snapshot_histories)
  pub find_telemetry_histories_ok :
      (p : GpuTelemetryHistory → Bool) (s : db.State) (rs : List GpuTelemetryHistory)
      → (db.find_telemetry_histories p s).0 ≡ ok rs
      → Perm rs (keep p (db.tables s).telemetry_histories)
  -- A new row gets a primary key; one that repeats the value of a unique index is refused.
  pub create_ok :
      (r : ClusterSnapshotRow) (s : db.State)
      → (db.create_snapshot r s).0 ≡ ok tt
      → (k : ℕ) × (k ≢ 0)
        × (with_id k (db.tables s).snapshots ≡ [])
        × (db.tables (db.create_snapshot r s).1 ≡ record (db.tables s) {
          snapshots = (db.tables s).snapshots ++ record r { id = k } ∷ [];
        })
        × (of_cluster r.cluster_id (db.tables s).snapshots ≡ [])
  -- `Save` of a row with a primary key writes its values over those that are stored.
  pub save_ok :
      (r : ClusterSnapshotRow) (s : db.State)
      → (db.save_snapshot r s).0 ≡ ok tt
      → r.id ≢ 0
      → db.tables (db.save_snapshot r s).1
        ≡ record (db.tables s) { snapshots = replace r (db.tables s).snapshots }
  -- `Save` of a row without one inserts it.
  pub save_snapshot_history_ok :
      (r : ClusterSnapshotHistory) (s : db.State)
      → (db.save_snapshot_history r s).0 ≡ ok tt
      → r.id ≡ 0
      → (k : ℕ) × (db.tables (db.save_snapshot_history r s).1 ≡ record (db.tables s) {
        snapshot_histories = (db.tables s).snapshot_histories ++ record r { id = k } ∷ [];
      })
  pub save_telemetry_history_ok :
      (r : GpuTelemetryHistory) (s : db.State)
      → (db.save_telemetry_history r s).0 ≡ ok tt
      → r.id ≡ 0
      → (k : ℕ) × (db.tables (db.save_telemetry_history r s).1 ≡ record (db.tables s) {
        telemetry_histories = (db.tables s).telemetry_histories ++ record r { id = k } ∷ [];
      })
  -- Each statement runs in a transaction of its own: one that fails has changed nothing.
  pub create_failed :
      (r : ClusterSnapshotRow) (s : db.State)
      → (db.create_snapshot r s).0 ≢ ok tt
      → db.tables (db.create_snapshot r s).1 ≡ db.tables s
  pub save_failed :
      (r : ClusterSnapshotRow) (s : db.State)
      → (db.save_snapshot r s).0 ≢ ok tt
      → db.tables (db.save_snapshot r s).1 ≡ db.tables s
  pub save_snapshot_history_failed :
      (r : ClusterSnapshotHistory) (s : db.State)
      → (db.save_snapshot_history r s).0 ≢ ok tt
      → db.tables (db.save_snapshot_history r s).1 ≡ db.tables s
  pub save_telemetry_history_failed :
      (r : GpuTelemetryHistory) (s : db.State)
      → (db.save_telemetry_history r s).0 ≢ ok tt
      → db.tables (db.save_telemetry_history r s).1 ≡ db.tables s
