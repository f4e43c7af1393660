-- ===== src/Tests/Determined.antt =====
-- Two databases that hold the same of a tenant and return rows in opposite orders, behind clocks
-- that differ.
use mathlib.Core.List.{reverse, reverse_perm, Perm, Memᴰ}
use mathlib.Core.List.Memᴰ
use mathlib.Core.List.Perm
use mathlib.Core.Logic.{∥∥₁_elim}
use cluster_monitor.Store.Rows.{ClusterSnapshotRow}
use cluster_monitor.Server.Snapshots.Handler.Laws.{clusters_of}
use cluster_monitor.Prelude.{◌≡◌, refl, keep, some, arith, [], ◌∷◌}
use cluster_monitor.Prelude.Int.{wrap, quot}
use cluster_monitor.Prelude.Order.{◌==◌, string_ord}
use cluster_monitor.Go.Result.{ok, ok-injective}
use cluster_monitor.Go.Time.{Time, truncate, add, unix}
use cluster_monitor.Go.Exec.{◌>>=◌}
use cluster_monitor.Go.Map.{lookup, assign}
use cluster_monitor.Store.Database.{Db, IsLawful, Tables}
use cluster_monitor.Store.{list_cluster_snapshots_by_tenant_id, list_cluster_snapshot_histories}
use cluster_monitor.Server.Window.{get_start_end_time, end_of, start_of}
use cluster_monitor.Server.Gather.{gather}
use cluster_monitor.Server.Buckets.{datapoints, fill}
use cluster_monitor.Server.Tally.{tally}
use cluster_monitor.Server.Snapshots.{
  calculate_snapshot_values, averages, count_history, respond, get_all_grouping_values, add_node,
}
use cluster_monitor.Server.Snapshots.Answer.{answer}
use cluster_monitor.Server.Snapshots.Handler.{list_cluster_snapshots}
use cluster_monitor.Server.Snapshots.Handler.Determined.{SameFor, list_cluster_snapshots-Determined}
use cluster_monitor.Tests.Samples.{row, history, moment, unmarshal, tables, tables-IsIndexed}
use cluster_monitor.Tests.Memory.{memory, memory-IsLawful}
use cluster_monitor.Tests.Handler.{caller, request, response, response_runs}

abbrev backwards : Time → Db
backwards clock =
    let db = memory clock in
    record {
      State = Tables;
      tables = λ t. t;
      now = db.now;
      take_snapshot = db.take_snapshot;
      find_snapshots = λ p t. (ok (reverse (keep p t.snapshots)), t);
      create_snapshot = db.create_snapshot;
      save_snapshot = db.save_snapshot;
      find_snapshot_histories = λ p t. (ok (reverse (keep p t.snapshot_histories)), t);
      save_snapshot_history = db.save_snapshot_history;
      find_telemetry_histories = λ p t. (ok (reverse (keep p t.telemetry_histories)), t);
      save_telemetry_history = db.save_telemetry_history;
    }

backwards-IsLawful : (clock : Time) → IsLawful (backwards clock)
backwards-IsLawful clock =
    let laws = memory-IsLawful clock in
    record {
      now_frame = λ t. refl;
      take_frame = λ p t. refl;
      find_frame = λ p t. refl;
      find_snapshot_histories_frame = λ p t. refl;
      find_telemetry_histories_frame = λ p t. refl;
      take_ok = laws.take_ok;
      take_missing = laws.take_missing;
      find_ok = λ p t rs h. rw (← ok-injective h) (reverse_perm (keep p t.snapshots));
      find_snapshot_histories_ok =
          λ p t rs h. rw (← ok-injective h) (reverse_perm (keep p t.snapshot_histories));
      find_telemetry_histories_ok =
          λ p t rs h. rw (← ok-injective h) (reverse_perm (keep p t.telemetry_histories));
      create_ok = laws.create_ok;
      save_ok = laws.save_ok;
      save_snapshot_history_ok = laws.save_snapshot_history_ok;
      save_telemetry_history_ok = laws.save_telemetry_history_ok;
      create_failed = laws.create_failed;
      save_failed = laws.save_failed;
      save_snapshot_history_failed = laws.save_snapshot_history_failed;
      save_telemetry_history_failed = laws.save_telemetry_history_failed;
    }

-- Beside the clusters of the tenant there is one of another tenant, with a snapshot.
abbrev shared : Tables
shared = record {
  snapshots = row 3 "c9" "south" "t2" ∷ row 1 "c1" "east" "t1" ∷ row 2 "c2" "west" "t1" ∷ [];
  snapshot_histories = history "c2" 4 20 ∷ history "c9" 7 15 ∷ history "c1" 2 10 ∷ [];
  telemetry_histories = [];
}

own_histories :
    (c : ClusterSnapshotRow)
    → Memᴰ c (clusters_of "t1" tables)
    → Perm
        (keep (λ h. h.cluster_id == c.cluster_id) shared.snapshot_histories)
        (keep (λ h. h.cluster_id == c.cluster_id) tables.snapshot_histories)
own_histories c (Memᴰ.head e) = rw e Perm.rfl
own_histories c (Memᴰ.tail (Memᴰ.head e)) = rw e Perm.rfl
own_histories c (Memᴰ.tail (Memᴰ.tail m)) = absurd (Memᴰ.not-nil m)

same_tenant : SameFor "t1" tables shared
same_tenant = record {
  clusters = Perm.rfl;
  histories = λ c m. ∥∥₁_elim m squash₁ (own_histories c);
}

backwards_runs :
    (list_cluster_snapshots (backwards (moment 5000)) unmarshal request (some caller) shared).0
    ≡ ok response
unfolding list_cluster_snapshots ◌>>=◌ list_cluster_snapshots_by_tenant_id get_start_end_time end_of
    start_of truncate wrap gather list_cluster_snapshot_histories answer get_all_grouping_values
    lookup assign datapoints calculate_snapshot_values tally fill add unix quot averages add_node
    count_history respond
backwards_runs = refl

list_cluster_snapshots-Determined_example : response ≡ response
list_cluster_snapshots-Determined_example =
    list_cluster_snapshots-Determined (memory (moment 0)) (backwards (moment 5000))
      (memory-IsLawful (moment 0)) (backwards-IsLawful (moment 5000)) unmarshal request caller
      caller tables shared response response refl same_tenant tables-IsIndexed (omega arith)
      (λ z. (omega arith, omega arith)) (λ z. (omega arith, omega arith))
      (omega arith, omega arith, omega arith, omega arith) (omega arith, omega arith) response_runs
      backwards_runs
