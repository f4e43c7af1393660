-- ===== src/Store/Races.antt =====
-- `CreateOrUpdateClusterSnapshot` of many requests at a time. Its query and its write are statements
-- of their own, so that other requests may come in between.
pub mod Keys
pub mod Relied
pub mod Writes
pub mod Laws
use cluster_monitor.Prelude.{ℕ, ◌≡◌, if◌then◌else◌, eqb}
use cluster_monitor.Prelude.Order.{◌==◌, string_ord}
use cluster_monitor.Go.Result.{Result}
use cluster_monitor.Store.Rows.{ClusterSnapshotRow}
use cluster_monitor.Store.Database.{Db}
use cluster_monitor.Store.{create_or_update}

-- Where a request with a row stands.
pub data Pc : Type 0 where
  arriving : ClusterSnapshotRow → Pc
  answered : ClusterSnapshotRow → Result ClusterSnapshotRow → Pc
  returned : ClusterSnapshotRow → Result (Unit {0}) → Pc

-- the requests, with that of `i` at another point
abbrev pub moved : (ℕ → Pc) → ℕ → Pc → ℕ → Pc
moved pcs i pc j = if eqb i j then pc else pcs j

module _ (db : Db) where
  pub record System : Type 0 where
    pub state : db.State
    pub pcs : ℕ → Pc

  pub data Step (s : System) : System → Type 0 where
    -- `s.db.Where("cluster_id = ?", c.ClusterID).Take(&existing)`
    queries :
        (i : ℕ) {c : ClusterSnapshotRow}
        → s.pcs i ≡ arriving c
        → Step s (record {
          state = (db.take_snapshot (λ r. r.cluster_id == c.cluster_id) s.state).1;
          pcs =
              moved s.pcs i
                (answered c (db.take_snapshot (λ r. r.cluster_id == c.cluster_id) s.state).0);
        })
    -- `Create` or `Save`, or neither
    writes :
        (i : ℕ) {c : ClusterSnapshotRow} {found : Result ClusterSnapshotRow}
        → s.pcs i ≡ answered c found
        → Step s (record {
          state = (create_or_update db c found s.state).1;
          pcs = moved s.pcs i (returned c (create_or_update db c found s.state).0);
        })
    -- Statements on the other tables, and the clock.
    others :
        (t : db.State)
        → (db.tables t).snapshots ≡ (db.tables s.state).snapshots
        → Step s (record s { state = t })

  pub data Reach (s : System) : System → Type 0 where
    here : Reach s s
    later : {t u : System} → Reach s t → Step t u → Reach s u
