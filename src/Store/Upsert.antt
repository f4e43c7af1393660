-- ===== src/Store/Upsert.antt =====
-- `CreateOrUpdateClusterSnapshot` against the map that the table stands for: the name and the tenant
-- of each cluster.
use mathlib.Core.Path.{subst}
use cluster_monitor.Prelude.{
  ◌≡◌, ◌≢◌, refl, sym, ap, ◌∙◌, inl, inr, String, some, List, [], ◌∷◌, ◌++◌, arith, if◌then◌else◌,
  Bool-cases,
}
use cluster_monitor.Prelude.Order.{◌==◌, ==_iff, eq_of_==, string_ord}
use cluster_monitor.Go.Result.{
  Result, ok, err, panics, out_of_rounds, record_not_found, status, plain, codec_error, db_error,
}
use cluster_monitor.Store.Rows.{ClusterSnapshotRow}
use cluster_monitor.Store.Database.{Db, IsLawful, Tables, of_cluster}
use cluster_monitor.Store.{create_or_update, create_or_update_cluster_snapshot}
use cluster_monitor.Store.Registered.{
  registered, IsIndexed, update_entry, registered-append, registered-replace, of_cluster_single,
  registered_at, registered_missing,
}

module _ (db : Db) (lawful : IsLawful db) (c : ClusterSnapshotRow) where
  -- The claim, for the answer `found` to the query and the state `t` that it left.
  abbrev Registers : Result ClusterSnapshotRow → db.State → List ClusterSnapshotRow → Type 0
  Registers found t rows =
      (create_or_update db c found t).0 ≡ ok tt
      → (id : String)
      → registered id (db.tables (create_or_update db c found t).1).snapshots ≡ (
          if c.cluster_id == id
          then some (update_entry c (registered id rows))
          else registered id rows)

  Registers-new :
      (t : db.State)
      → of_cluster c.cluster_id (db.tables t).snapshots ≡ []
      → Registers (err record_not_found) t (db.tables t).snapshots
  unfolding create_or_update
  Registers-new t none_yet h id =
      let rows = (db.tables t).snapshots in
      let (k, _, _, stored, _) = lawful.create_ok c t h in
      rw stored (
        registered-append (record c { id = k }) id rows none_yet
        ∙ ground (arith, ==_iff c.cluster_id id, registered_missing c.cluster_id rows none_yet))

  -- The name of the entry is that of the row, the tenant stays.
  update_entry_at :
      (e : ClusterSnapshotRow) (id : String) (rows : List ClusterSnapshotRow)
      → of_cluster c.cluster_id rows ≡ e ∷ []
      → (if c.cluster_id == id
          then some (record { name = c.name; tenant = e.tenant_id })
          else registered id rows)
        ≡ (if c.cluster_id == id
            then some (update_entry c (registered id rows))
            else registered id rows)
  update_entry_at e id rows single = elim (Bool-cases (c.cluster_id == id)) [
    | inl same ↦ rw same (
        ap some (
          ap (update_entry c) (sym (registered_at e c.cluster_id rows single))
          ∙ ap (λ k. update_entry c (registered k rows)) (eq_of_== c.cluster_id id same)))
    | inr differ ↦ rw differ
  ]

  registers_same_name :
      (e : ClusterSnapshotRow) (id : String) (rows : List ClusterSnapshotRow)
      → of_cluster c.cluster_id rows ≡ e ∷ []
      → e.name ≡ c.name
      → registered id rows ≡ (
          if c.cluster_id == id
          then some (record { name = c.name; tenant = e.tenant_id })
          else registered id rows)
  registers_same_name e id rows single named = elim (Bool-cases (c.cluster_id == id)) [
    | inl same ↦ rw same (
        ap (λ k. registered k rows) (sym (eq_of_== c.cluster_id id same))
        ∙ registered_at e c.cluster_id rows single
        ∙ ap (λ n. some (record { name = n; tenant = e.tenant_id })) named)
    | inr differ ↦ rw differ
  ]

  Registers-again :
      (e : ClusterSnapshotRow) (t : db.State)
      → IsIndexed (db.tables t).snapshots
      → of_cluster c.cluster_id (db.tables t).snapshots ≡ e ∷ []
      → e.cluster_id ≡ c.cluster_id
      → e.id ≢ 0
      → Registers (ok e) t (db.tables t).snapshots
  unfolding create_or_update
  Registers-again e t x single named key h id = elim (Bool-cases (e.name == c.name)) [
    | inl same ↦ rw same (
        registers_same_name e id (db.tables t).snapshots single (eq_of_== e.name c.name same)
        ∙ update_entry_at e id (db.tables t).snapshots single)
    | inr differ ↦
        let rows = (db.tables t).snapshots in
        rw differ (
          rw (lawful.save_ok (record e { name = c.name }) t (rw differ at h) key) (
            registered-replace e c.name id rows x
              (subst (λ k. of_cluster k rows ≡ e ∷ []) (sym named) single)
            ∙ ap
                (λ k.
                  if k == id
                  then some (record { name = c.name; tenant = e.tenant_id })
                  else registered id rows)
                named
            ∙ update_entry_at e id rows single))
  ]

  registers :
      (found : Result ClusterSnapshotRow) (t : db.State)
      → IsIndexed (db.tables t).snapshots
      → (found ≡ err record_not_found → of_cluster c.cluster_id (db.tables t).snapshots ≡ [])
      → ((e : ClusterSnapshotRow)
          → found ≡ ok e
          → (before after : List ClusterSnapshotRow) × (of_cluster c.cluster_id
                (db.tables t).snapshots
              ≡ before ++ e ∷ after))
      → Registers found t (db.tables t).snapshots
  unfolding create_or_update
  registers (ok e) t x _ one h id =
      let (before, after, split) = one e refl in
      let (single, named, key) = of_cluster_single c.cluster_id _ before after e x split in
      Registers-again e t x single named key h id
  registers (err record_not_found) t x none_yet _ h id = Registers-new t (none_yet refl) h id
  registers (err (status k)) t x _ _ h id = cc
  registers (err plain) t x _ _ h id = cc
  registers (err codec_error) t x _ _ h id = cc
  registers (err db_error) t x _ _ h id = cc
  registers panics t x _ _ h id = cc
  registers out_of_rounds t x _ _ h id = cc

  -- Over a lawful database with an indexed table, CreateOrUpdateClusterSnapshot that returns no
  -- error has written the name of the cluster, has kept the tenant of a cluster that was registered
  -- before, and has changed the entry of no other cluster.
  pub create_or_update-registered :
      (s : db.State) (id : String)
      → IsIndexed (db.tables s).snapshots
      → (create_or_update_cluster_snapshot db c s).0 ≡ ok tt
      → registered id (db.tables (create_or_update_cluster_snapshot db c s).1).snapshots ≡ (
          if c.cluster_id == id
          then some (update_entry c (registered id (db.tables s).snapshots))
          else registered id (db.tables s).snapshots)
  unfolding create_or_update_cluster_snapshot
  create_or_update-registered s id x h =
      let p = λ (r : ClusterSnapshotRow). r.cluster_id == c.cluster_id in
      let frame = lawful.take_frame p s in
      subst
        (λ (tables : Tables).
          registered id (db.tables (create_or_update_cluster_snapshot db c s).1).snapshots ≡ (
            if c.cluster_id == id
            then some (update_entry c (registered id tables.snapshots))
            else registered id tables.snapshots))
        frame
        (registers (db.take_snapshot p s).0 (db.take_snapshot p s).1 (rw frame x)
          (λ e. rw frame (lawful.take_missing p s e)) (λ e f. rw frame (lawful.take_ok p s e f)) h
          id)
