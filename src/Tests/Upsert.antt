-- ===== src/Tests/Upsert.antt =====
-- Tests of the store.
use cluster_monitor.Prelude.{◌≡◌, refl, ap, String, some, [], ◌∷◌, if◌then◌else◌}
use cluster_monitor.Prelude.Order.{◌==◌, string_ord}
use cluster_monitor.Go.Result.{ok}
use cluster_monitor.Store.{create_or_update_cluster_snapshot}
use cluster_monitor.Store.Registered.{registered, update_entry}
use cluster_monitor.Store.Upsert.{create_or_update-registered}
use cluster_monitor.Store.Invariant.{Kept, create_or_update_cluster_snapshot-Kept}
use cluster_monitor.Tests.Samples.{moment, tables, row, tables-IsIndexed}
use cluster_monitor.Tests.Memory.{memory, memory-IsLawful}

-- The name is overwritten, the tenant is kept.
rename_runs :
    (create_or_update_cluster_snapshot (memory (moment 0)) (row 0 "c1" "north" "t2") tables)
    ≡ (ok tt, record tables { snapshots = row 1 "c1" "north" "t1" ∷ row 2 "c2" "west" "t1" ∷ [] })
unfolding create_or_update_cluster_snapshot
rename_runs = refl

create_runs :
    (create_or_update_cluster_snapshot (memory (moment 0)) (row 0 "c3" "new" "t2") tables) ≡ (
      ok tt,
      record tables {
        snapshots = row 1 "c1" "east" "t1" ∷ row 2 "c2" "west" "t1" ∷ row 4 "c3" "new" "t2" ∷ [];
      },
    )
unfolding create_or_update_cluster_snapshot
create_runs = refl

create_or_update-registered_example :
    registered "c1"
      (create_or_update_cluster_snapshot
        (memory (moment 0))
        (row 0 "c1" "north" "t2")
        tables).1.snapshots
    ≡ (if ◌==◌ {K = String} "c1" "c1"
        then some (update_entry (row 0 "c1" "north" "t2") (registered "c1" tables.snapshots))
        else registered "c1" tables.snapshots)
create_or_update-registered_example =
    create_or_update-registered (memory (moment 0)) (memory-IsLawful (moment 0))
      (row 0 "c1" "north" "t2") tables "c1" tables-IsIndexed (ap (λ r. r.0) rename_runs)

create_or_update_cluster_snapshot-Kept_example :
    Kept tables
      (create_or_update_cluster_snapshot (memory (moment 0)) (row 0 "c3" "new" "t2") tables).1
create_or_update_cluster_snapshot-Kept_example =
    create_or_update_cluster_snapshot-Kept (memory (moment 0)) (memory-IsLawful (moment 0))
      (row 0 "c3" "new" "t2") tables tables-IsIndexed
