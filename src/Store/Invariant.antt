-- ===== src/Store/Invariant.antt =====
-- `CreateOrUpdateClusterSnapshot` keeps the primary keys and the unique index of its table.
use cluster_monitor.Prelude.{
  ◌≡◌, ◌≢◌, refl, sym, ap, inl, inr, false, true, List, [], ◌∷◌, ◌++◌, arith, eqb, Bool-cases,
  String,
}
use mathlib.Core.Path.{subst}
use cluster_monitor.Prelude.Order.{◌==◌, ==_iff, eq_of_==, string_ord}
use cluster_monitor.Go.Result.{
  succeeded, Result, ok, err, panics, out_of_rounds, record_not_found, status, plain, codec_error,
  db_error,
}
use cluster_monitor.Store.Rows.{ClusterSnapshotRow}
use cluster_monitor.Store.Database.{Db, IsLawful, Tables, of_cluster, with_id, replace}
use cluster_monitor.Store.Registered.{Alone, IsIndexed, other_id, of_cluster_single}
use cluster_monitor.Store.{create_or_update, create_or_update_cluster_snapshot}

Alone-append :
    (r c : ClusterSnapshotRow) (rows : List ClusterSnapshotRow)
    → eqb c.id r.id ≡ false
    → (c.cluster_id == r.cluster_id) ≡ false
    → Alone r rows
    → Alone r (rows ++ c ∷ [])
Alone-append r c [] i k a = (i, k, tt)
Alone-append r c (q ∷ rows) i k (x, y, a) = (x, y, Alone-append r c rows i k a)

pub append-IsIndexed :
    (c : ClusterSnapshotRow) (rows : List ClusterSnapshotRow)
    → c.id ≢ 0
    → with_id c.id rows ≡ []
    → of_cluster c.cluster_id rows ≡ []
    → IsIndexed rows
    → IsIndexed (rows ++ c ∷ [])
append-IsIndexed c [] n h k x = (n, tt, tt)
append-IsIndexed c (r ∷ rows) n h k (m, a, x) = (
  m,
  Alone-append r c rows (ground arith)
      (ground (arith, ==_iff r.cluster_id c.cluster_id, ==_iff c.cluster_id r.cluster_id)) a,
  append-IsIndexed c rows n (ground arith) (ground arith) x,
)

-- A row with the primary key of `e` has the cluster of `e`.
abbrev Agrees : ClusterSnapshotRow → List ClusterSnapshotRow → Type 0
Agrees e [] = Unit
Agrees e (q ∷ rows) = (eqb q.id e.id ≡ true → q.cluster_id ≡ e.cluster_id) × Agrees e rows

Alone-same :
    (r q : ClusterSnapshotRow) (rows : List ClusterSnapshotRow)
    → r.id ≡ q.id
    → r.cluster_id ≡ q.cluster_id
    → Alone r rows
    → Alone q rows
Alone-same r q [] h k a = tt
Alone-same r q (p ∷ rows) h k (x, y, a) = (rw (← h) x, rw (← k) y, Alone-same r q rows h k a)

Alone-replace :
    (r e : ClusterSnapshotRow) (rows : List ClusterSnapshotRow)
    → Agrees e rows
    → Alone r rows
    → Alone r (replace e rows)
Alone-replace r e [] h a = tt
Alone-replace r e (q ∷ rows) (here, h) (i, k, a) = elim (Bool-cases (eqb q.id e.id)) [
  | inl same ↦ rw same (ground arith, rw (← here same) k, Alone-replace r e rows h a)
  | inr differ ↦ rw differ (i, k, Alone-replace r e rows h a)
]

replace-IsIndexed :
    (e : ClusterSnapshotRow) (rows : List ClusterSnapshotRow)
    → e.id ≢ 0
    → Agrees e rows
    → IsIndexed rows
    → IsIndexed (replace e rows)
replace-IsIndexed e [] n h x = tt
replace-IsIndexed e (q ∷ rows) n (here, h) (m, a, x) = elim (Bool-cases (eqb q.id e.id)) [
  | inl same ↦ rw same (
    n,
    Alone-replace e e rows h (Alone-same q e rows (ground arith) (here same) a),
    replace-IsIndexed e rows n h x,
  )
  | inr differ ↦ rw differ (m, Alone-replace q e rows h a, replace-IsIndexed e rows n h x)
]

Agrees-Alone :
    (r e : ClusterSnapshotRow) (rows : List ClusterSnapshotRow)
    → r.id ≡ e.id
    → Alone r rows
    → Agrees e rows
Agrees-Alone r e [] h a = tt
Agrees-Alone r e (q ∷ rows) h (i, k, a) = (ground arith, Agrees-Alone r e rows h a)

-- The row of a cluster agrees with the table that it was read from.
Agrees-of_cluster :
    (e : ClusterSnapshotRow) (name : String) (rows : List ClusterSnapshotRow)
    → IsIndexed rows
    → of_cluster e.cluster_id rows ≡ e ∷ []
    → Agrees (record e { name = name }) rows
Agrees-of_cluster e name [] x h = tt
Agrees-of_cluster e name (r ∷ rows) (n, a, x) h = elim (Bool-cases (r.cluster_id == e.cluster_id)) [
  | inl same ↦
      let first : r ≡ e = ground arith in
      (
        λ _. eq_of_== r.cluster_id e.cluster_id same,
        Agrees-Alone r (record e { name = name }) rows (ap (λ q. q.id) first) a,
      )
  | inr differ ↦
      (ground (arith, other_id r e rows [] a), Agrees-of_cluster e name rows x (ground arith))
]

-- The indexes hold, and the histories are those of `t`.
abbrev pub Kept : Tables → Tables → Type 0
Kept t u =
    (u.snapshot_histories ≡ t.snapshot_histories)
    × (u.telemetry_histories ≡ t.telemetry_histories)
    × IsIndexed u.snapshots

module _ (db : Db) (lawful : IsLawful db) (c : ClusterSnapshotRow) where
  abbrev Indexed : db.State → Type 0
  Indexed s = IsIndexed (db.tables s).snapshots

  create-Kept :
      (t : db.State) → Indexed t → Kept (db.tables t) (db.tables (db.create_snapshot c t).1)
  create-Kept t x = elim (succeeded (db.create_snapshot c t).0) [
    | inl done ↦
        let (k, n, fresh, stored, none_yet) = lawful.create_ok c t done in
        rw stored (
          refl,
          refl,
          append-IsIndexed (record c { id = k }) (db.tables t).snapshots n fresh none_yet x,
        )
    | inr failed ↦ rw (lawful.create_failed c t failed) (refl, refl, x)
  ]

  save-Kept :
      (e : ClusterSnapshotRow) (t : db.State)
      → e.id ≢ 0
      → of_cluster e.cluster_id (db.tables t).snapshots ≡ e ∷ []
      → Indexed t
      → Kept (db.tables t) (db.tables (db.save_snapshot (record e { name = c.name }) t).1)
  save-Kept e t n single x =
      let e' = record e { name = c.name } in
      elim (succeeded (db.save_snapshot e' t).0) [
        | inl done ↦ rw (lawful.save_ok e' t done n) (
          refl,
          refl,
          replace-IsIndexed e' (db.tables t).snapshots n
              (Agrees-of_cluster e c.name (db.tables t).snapshots x single) x,
        )
        | inr failed ↦ rw (lawful.save_failed e' t failed) (refl, refl, x)
      ]

  create_or_update-Kept :
      (found : Result ClusterSnapshotRow) (t : db.State)
      → ((e : ClusterSnapshotRow)
          → found ≡ ok e
          → (before after : List ClusterSnapshotRow) × (of_cluster c.cluster_id
                (db.tables t).snapshots
              ≡ before ++ e ∷ after))
      → Indexed t
      → Kept (db.tables t) (db.tables (create_or_update db c found t).1)
  unfolding create_or_update
  create_or_update-Kept (ok e) t one x = elim (Bool-cases (e.name == c.name)) [
    | inl same ↦ rw same (refl, refl, x)
    | inr differ ↦
        let (before, after, split) = one e refl in
        let (single, key, n) = of_cluster_single c.cluster_id _ before after e x split in
        rw differ (
          save-Kept e t n
            (subst (λ k. of_cluster k (db.tables t).snapshots ≡ e ∷ []) (sym key) single) x)
  ]
  create_or_update-Kept (err record_not_found) t one x = create-Kept t x
  create_or_update-Kept (err (status k)) t one x = (refl, refl, x)
  create_or_update-Kept (err plain) t one x = (refl, refl, x)
  create_or_update-Kept (err codec_error) t one x = (refl, refl, x)
  create_or_update-Kept (err db_error) t one x = (refl, refl, x)
  create_or_update-Kept panics t one x = (refl, refl, x)
  create_or_update-Kept out_of_rounds t one x = (refl, refl, x)

  -- Over a lawful database, CreateOrUpdateClusterSnapshot keeps the table indexed whatever it
  -- returns, an error included: every row has a primary key, and no two rows have the same primary
  -- key or the same cluster. It changes neither of the two histories.
  pub create_or_update_cluster_snapshot-Kept :
      (s : db.State)
      → IsIndexed (db.tables s).snapshots
      → Kept (db.tables s) (db.tables (create_or_update_cluster_snapshot db c s).1)
  unfolding create_or_update_cluster_snapshot
  create_or_update_cluster_snapshot-Kept s x =
      let p = λ (r : ClusterSnapshotRow). r.cluster_id == c.cluster_id in
      let frame = lawful.take_frame p s in
      subst (λ t. Kept t (db.tables (create_or_update_cluster_snapshot db c s).1)) frame
        (create_or_update-Kept (db.take_snapshot p s).0 (db.take_snapshot p s).1
          (λ e f. rw frame (lawful.take_ok p s e f)) (rw frame x))
