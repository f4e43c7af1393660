-- ===== src/Store/Races/Writes.antt =====
-- The query and the write of one request.
use mathlib.Core.Path.{subst}
use mathlib.Core.List.{Memᴰ, map-append, append-nil}
use mathlib.Core.List.Memᴰ
use cluster_monitor.Prelude.{◌≡◌, refl, sym, ap, ◌∙◌, inl, inr, List, [], ◌∷◌, ◌++◌, Bool-cases}
use cluster_monitor.Prelude.Order.{◌==◌, string_ord}
use cluster_monitor.Go.Result.{
  succeeded, Result, ok, err, panics, out_of_rounds, record_not_found, status, plain, codec_error,
  db_error,
}
use cluster_monitor.Store.Rows.{ClusterSnapshotRow}
use cluster_monitor.Store.Database.{Db, IsLawful, replace}
use cluster_monitor.Store.{create_or_update}
use cluster_monitor.Store.Registered.{IsIndexed}
use cluster_monitor.Store.Invariant.{append-IsIndexed}
use cluster_monitor.Store.Races.{answered, returned}
use cluster_monitor.Store.Races.Keys.{
  key, keys_of, IsIndexed-keys, keys_of-replace, listed-ne-zero, listed_of_cluster,
}
use cluster_monitor.Store.Races.Relied.{Served, Served-failed, Served-done, Grows, Grows-same}

abbrev pub rows_of : (db : Db) → db.State → List ClusterSnapshotRow
rows_of db s = (db.tables s).snapshots

module _ (db : Db) where
  -- The write of a request.
  pub record Wrote (c : ClusterSnapshotRow) (s : db.State) (r : Result (Unit {0})) (t : db.State)
      : Type 0 where
    pub indexed : IsIndexed (rows_of db t)
    pub grows : Grows (rows_of db s) (rows_of db t)
    pub served : Served (returned c r) (rows_of db t)

module _ (db : Db) (lawful : IsLawful db) where
  Wrote-rows :
      (c : ClusterSnapshotRow) (s t : db.State) (r : Result (Unit {0}))
      (rows : List ClusterSnapshotRow)
      → rows_of db t ≡ rows
      → IsIndexed rows
      → Grows (rows_of db s) rows
      → Served (returned c r) rows
      → Wrote db c s r t
  Wrote-rows c s t r rows e x g v = record {
    indexed = subst IsIndexed (sym e) x;
    grows = subst (Grows (rows_of db s)) (sym e) g;
    served = subst (Served (returned c r)) (sym e) v;
  }

  Wrote-same :
      (c : ClusterSnapshotRow) (s t : db.State) (r : Result (Unit {0}))
      → db.tables t ≡ db.tables s
      → IsIndexed (rows_of db s)
      → Served (returned c r) (rows_of db s)
      → Wrote db c s r t
  Wrote-same c s t r e x v =
      Wrote-rows c s t r (rows_of db s) (ap (λ z. z.snapshots) e) x (Grows-same (rows_of db s)) v

  create-Wrote :
      (c : ClusterSnapshotRow) (s : db.State)
      → IsIndexed (rows_of db s)
      → Wrote db c s (db.create_snapshot c s).0 (db.create_snapshot c s).1
  create-Wrote c s x = elim (succeeded (db.create_snapshot c s).0) [
    | inl done ↦
        let (k, n, fresh, stored, none_yet) = lawful.create_ok c s done in
        let row : ClusterSnapshotRow = record c { id = k } in
        let rows : List ClusterSnapshotRow = rows_of db s ++ row ∷ [] in
        let more : keys_of rows ≡ keys_of (rows_of db s) ++ key row ∷ [] =
          map-append key (rows_of db s) (row ∷ []) in
        let listed : Memᴰ (key row) (keys_of rows) =
          rw more (Memᴰ.append_right (keys_of (rows_of db s)) (Memᴰ.head refl)) in
        Wrote-rows c s _ _ rows (ap (λ z. z.snapshots) stored)
          (append-IsIndexed row (rows_of db s) n fresh none_yet x) (key row ∷ [], more)
          (Served-done c _ (key row) rows done listed refl)
    | inr failed ↦
        Wrote-same c s _ _ (lawful.create_failed c s failed) x
          (Served-failed c _ (rows_of db s) failed)
  ]

  save-Wrote :
      (c e : ClusterSnapshotRow) (s : db.State)
      → IsIndexed (rows_of db s)
      → Memᴰ (key e) (keys_of (rows_of db s))
      → e.cluster_id ≡ c.cluster_id
      → Wrote db c s
          (db.save_snapshot (record e { name = c.name }) s).0
          (db.save_snapshot (record e { name = c.name }) s).1
  save-Wrote c e s x m h =
      let e' : ClusterSnapshotRow = record e { name = c.name } in
      elim (succeeded (db.save_snapshot e' s).0) [
        | inl done ↦
            let rows = replace e' (rows_of db s) in
            let same : keys_of rows ≡ keys_of (rows_of db s) =
              keys_of-replace e c.name (rows_of db s) x m in
            let stored = lawful.save_ok e' s done (listed-ne-zero (key e) (rows_of db s) x m) in
            Wrote-rows c s _ _ rows (ap (λ z. z.snapshots) stored)
              (IsIndexed-keys (rows_of db s) rows (sym same) x)
              ([], same ∙ sym (append-nil (keys_of (rows_of db s))))
              (Served-done c _ (key e) rows done (rw same m) h)
        | inr failed ↦
            Wrote-same c s _ _ (lawful.save_failed e' s failed) x
              (Served-failed c _ (rows_of db s) failed)
      ]

  pub create_or_update-Wrote :
      (c : ClusterSnapshotRow) (found : Result ClusterSnapshotRow) (s : db.State)
      → IsIndexed (rows_of db s)
      → Served (answered c found) (rows_of db s)
      → Wrote db c s (create_or_update db c found s).0 (create_or_update db c found s).1
  unfolding create_or_update
  create_or_update-Wrote c (ok e) s x (m, h) = elim (Bool-cases (e.name == c.name)) [
    | inl same ↦ rw same (Wrote-same c s s (ok tt) refl x (key e, m, h))
    | inr differ ↦ rw differ (save-Wrote c e s x m h)
  ]
  create_or_update-Wrote c (err record_not_found) s x v = create-Wrote c s x
  create_or_update-Wrote c (err (status k)) s x v = Wrote-same c s s _ refl x tt
  create_or_update-Wrote c (err plain) s x v = Wrote-same c s s _ refl x tt
  create_or_update-Wrote c (err codec_error) s x v = Wrote-same c s s _ refl x tt
  create_or_update-Wrote c (err db_error) s x v = Wrote-same c s s _ refl x tt
  create_or_update-Wrote c panics s x v = Wrote-same c s s _ refl x tt
  create_or_update-Wrote c out_of_rounds s x v = Wrote-same c s s _ refl x tt

  -- The answer to the query of a request.
  pub take-Served :
      (c : ClusterSnapshotRow) (s : db.State) (found : Result ClusterSnapshotRow)
      → (db.take_snapshot (λ r. r.cluster_id == c.cluster_id) s).0 ≡ found
      → Served (answered c found) (rows_of db s)
  take-Served c s (ok e) h =
      let (before, after, split) = lawful.take_ok (λ r. r.cluster_id == c.cluster_id) s e h in
      listed_of_cluster c.cluster_id (rows_of db s) before after e split
  take-Served c s (err x) h = tt
  take-Served c s panics h = tt
  take-Served c s out_of_rounds h = tt
