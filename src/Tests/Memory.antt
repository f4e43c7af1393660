-- ===== src/Tests/Memory.antt =====
-- A database that keeps its tables in lists, and a clock that stands still: an instance of the
-- parameters of the model, on which the program can be run.
use mathlib.Core.List.Perm
use cluster_monitor.Prelude.{
  ℕ, suc, ◌+◌, ◌<◌, ◌≡◌, ◌≢◌, ◌⊎◌, inl, inr, refl, ap, List, [], ◌∷◌, ◌++◌, keep, arith,
}
use cluster_monitor.Prelude.Order.{string_ord}
use cluster_monitor.Go.Result.{Result, ok, err, record_not_found, db_error, ok-injective}
use cluster_monitor.Go.Time.{Time}
use cluster_monitor.Go.Exec.{Exec}
use cluster_monitor.Store.Rows.{ClusterSnapshotRow}
use cluster_monitor.Server.Telemetry.Success.{IsUp}
use cluster_monitor.Store.Database.{Tables, Db, IsLawful, of_cluster, with_id, replace}

abbrev total : List ClusterSnapshotRow → ℕ
total [] = 0
total (r ∷ rows) = r.id + total rows

abbrev first : List ClusterSnapshotRow → Result ClusterSnapshotRow
first [] = err record_not_found
first (r ∷ rows) = ok r

-- A row whose cluster is taken is refused.
abbrev insert : ClusterSnapshotRow → List ClusterSnapshotRow → Exec Tables (Unit {0})
insert r [] t =
    (ok tt, record t { snapshots = t.snapshots ++ record r { id = suc (total t.snapshots) } ∷ [] })
insert r (q ∷ rows) t = (err db_error, t)

abbrev pub memory : Time → Db
memory clock = record {
  State = Tables;
  tables = λ t. t;
  now = λ t. (clock, t);
  take_snapshot = λ p t. (first (keep p t.snapshots), t);
  find_snapshots = λ p t. (ok (keep p t.snapshots), t);
  create_snapshot = λ r t. insert r (of_cluster r.cluster_id t.snapshots) t;
  save_snapshot = λ r t. (ok tt, record t { snapshots = replace r t.snapshots });
  find_snapshot_histories = λ p t. (ok (keep p t.snapshot_histories), t);
  save_snapshot_history = λ r t.
      (ok tt, record t { snapshot_histories = t.snapshot_histories ++ record r { id = 1 } ∷ [] });
  find_telemetry_histories = λ p t. (ok (keep p t.telemetry_histories), t);
  save_telemetry_history = λ r t.
      (ok tt, record t { telemetry_histories = t.telemetry_histories ++ record r { id = 1 } ∷ [] });
}

fresh : (k : ℕ) (rows : List ClusterSnapshotRow) → total rows < k → with_id k rows ≡ []
fresh k [] h = refl
fresh k (r ∷ rows) h = ground (arith, fresh k rows)

first_ok :
    (l : List ClusterSnapshotRow) (r : ClusterSnapshotRow)
    → first l ≡ ok r
    → (before after : List ClusterSnapshotRow) × (l ≡ before ++ r ∷ after)
first_ok [] r h = cc
first_ok (q ∷ l) r h = ([], l, ap (λ p. p ∷ l) (ok-injective h))

first_missing : (l : List ClusterSnapshotRow) → first l ≡ err record_not_found → l ≡ []
first_missing [] h = refl
first_missing (q ∷ l) h = cc

insert_ok :
    (r : ClusterSnapshotRow) (l : List ClusterSnapshotRow) (t : Tables)
    → (insert r l t).0 ≡ ok tt
    → (k : ℕ) × (k ≢ 0)
      × (with_id k t.snapshots ≡ [])
      × ((insert r l t).1 ≡ record t { snapshots = t.snapshots ++ record r { id = k } ∷ [] })
      × (l ≡ [])
insert_ok r [] t h =
    let k = suc (total t.snapshots) in
    (k, omega arith, fresh k t.snapshots (omega arith), refl, refl)
insert_ok r (q ∷ l) t h = cc

insert_failed :
    (r : ClusterSnapshotRow) (l : List ClusterSnapshotRow) (t : Tables)
    → (insert r l t).0 ≢ ok tt
    → (insert r l t).1 ≡ t
insert_failed r [] t h = absurd (h refl)
insert_failed r (q ∷ l) t h = refl

pub memory-IsLawful : (clock : Time) → IsLawful (memory clock)
memory-IsLawful clock = record {
  now_frame = λ t. refl;
  take_frame = λ p t. refl;
  find_frame = λ p t. refl;
  find_snapshot_histories_frame = λ p t. refl;
  find_telemetry_histories_frame = λ p t. refl;
  take_ok = λ p t r h. first_ok (keep p t.snapshots) r h;
  take_missing = λ p t h. first_missing (keep p t.snapshots) h;
  find_ok = λ p t rs h. rw (← ok-injective h) Perm.rfl;
  find_snapshot_histories_ok = λ p t rs h. rw (← ok-injective h) Perm.rfl;
  find_telemetry_histories_ok = λ p t rs h. rw (← ok-injective h) Perm.rfl;
  create_ok = λ r t h. insert_ok r (of_cluster r.cluster_id t.snapshots) t h;
  save_ok = λ r t h n. refl;
  save_snapshot_history_ok = λ r t h n. (1, refl);
  save_telemetry_history_ok = λ r t h n. (1, refl);
  create_failed = λ r t h. insert_failed r (of_cluster r.cluster_id t.snapshots) t h;
  save_failed = λ r t h. absurd (h refl);
  save_snapshot_history_failed = λ r t h. absurd (h refl);
  save_telemetry_history_failed = λ r t h. absurd (h refl);
}

first_row :
    (l : List ClusterSnapshotRow)
    → ((r : ClusterSnapshotRow) × (first l ≡ ok r)) ⊎ (first l ≡ err record_not_found)
first_row [] = inr refl
first_row (r ∷ l) = inl (r, refl)

pub memory-IsUp : (clock : Time) → IsUp (memory clock)
memory-IsUp clock = record {
  takes = λ p t. first_row (keep p t.snapshots);
  creates = λ r t h. rw h refl;
  saves = λ r e t h i. refl;
  saves_history = λ r t. refl;
  saves_telemetry = λ r t. refl;
}
