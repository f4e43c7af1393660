-- ===== src/Tests/Races.antt =====
-- Two agents that report a cluster for the first time at the same time.
use cluster_monitor.Prelude.{ℕ, ◌≡◌, ◌≢◌, refl, eqb, if◌then◌else◌, arith}
use cluster_monitor.Prelude.Order.{string_ord}
use cluster_monitor.Go.Result.{ok, err, record_not_found, db_error}
use cluster_monitor.Store.Rows.{ClusterSnapshotRow}
use cluster_monitor.Store.Database.{Db}
use cluster_monitor.Store.{create_or_update}
use cluster_monitor.Store.Races.{
  arriving, answered, returned, moved, System, queries, writes, Reach, here, later,
}
use cluster_monitor.Store.Races.Laws.{Raced, Reach-Raced, late-refused}
use cluster_monitor.Tests.Memory.{memory, memory-IsLawful}
use cluster_monitor.Tests.Samples.{row, tables, tables-IsIndexed, moment}

abbrev db : Db
db = memory (moment 0)

abbrev first : ClusterSnapshotRow
first = row 0 "c3" "north" "t1"

abbrev second : ClusterSnapshotRow
second = row 0 "c3" "south" "t1"

abbrev before_both : System db
before_both = record {
  state = tables;
  pcs = λ i. if eqb i 0 then arriving first else arriving second;
}

abbrev asked_once : System db
asked_once = record {
  state = tables;
  pcs = moved before_both.pcs 0 (answered first (err record_not_found));
}

abbrev asked_twice : System db
asked_twice = record {
  state = tables;
  pcs = moved asked_once.pcs 1 (answered second (err record_not_found));
}

abbrev written : System db
written = record {
  state = (create_or_update db first (err record_not_found) tables).1;
  pcs = moved asked_twice.pcs 0 (returned first (ok tt));
}

arrived : (i : ℕ) → (c : ClusterSnapshotRow) × (before_both.pcs i ≡ arriving c)
arrived ℕ.zero = (first, refl)
arrived (ℕ.suc i) = (second, ground arith)

run : Reach db before_both written
unfolding create_or_update
run = later (later (later here (queries 0 refl)) (queries 1 refl)) (writes 0 refl)

refused_test : (create_or_update db second (err record_not_found) written.state).0 ≡ err db_error
unfolding create_or_update
refused_test = refl

Reach-Raced_example : Raced db (memory-IsLawful (moment 0)) tables written
Reach-Raced_example =
    Reach-Raced db (memory-IsLawful (moment 0)) before_both written tables-IsIndexed arrived run

late-refused_example :
    ((create_or_update db second (err record_not_found) written.state).0 ≢ ok tt)
    × ((create_or_update db second (err record_not_found) written.state).1 ≡ written.state)
late-refused_example =
    late-refused db (memory-IsLawful (moment 0)) before_both written tables-IsIndexed arrived run 1
      0 second first refl refl refl
