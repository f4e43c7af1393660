-- ===== src/Store/Races/Laws.antt =====
-- What holds of the table of clusters, however requests interleave.
use mathlib.Core.Path.{subst}
use cluster_monitor.Prelude.{ℕ, ◌≡◌, ◌≢◌, refl, sym, ap, ◌∙◌, inl, inr, eqb, Bool-cases}
use cluster_monitor.Prelude.Order.{◌==◌, string_ord}
use cluster_monitor.Go.Result.{ok, err, record_not_found}
use cluster_monitor.Store.Rows.{ClusterSnapshotRow}
use cluster_monitor.Store.Database.{Db, IsLawful}
use cluster_monitor.Store.{create_or_update}
use cluster_monitor.Store.Registered.{IsIndexed}
use cluster_monitor.Store.Races.{
  Pc, arriving, answered, returned, moved, System, Step, queries, writes, others, Reach, here,
  later,
}
use cluster_monitor.Store.Races.Keys.{key, unlisted}
use cluster_monitor.Store.Races.Relied.{Served, Grows, Grows-same, Grows-trans, Served-Grows}
use cluster_monitor.Store.Races.Writes.{rows_of, create_or_update-Wrote, take-Served}

module _ (db : Db) (lawful : IsLawful db) where
  -- What holds of a system that began with the table of `s`.
  pub record Raced (s : db.State) (t : System db) : Type 0 where
    pub indexed : IsIndexed (rows_of db t.state)
    pub grows : Grows (rows_of db s) (rows_of db t.state)
    pub served : (i : ℕ) → Served (t.pcs i) (rows_of db t.state)

  -- One request moves, and the table grows.
  moves-Raced :
      (s : db.State) (t : System db) (i : ℕ) (pc : Pc) (u : db.State)
      → Raced s t
      → IsIndexed (rows_of db u)
      → Grows (rows_of db t.state) (rows_of db u)
      → Served pc (rows_of db u)
      → Raced s (record { state = u; pcs = moved t.pcs i pc })
  moves-Raced s t i pc u inv x g v = record {
    indexed = x;
    grows = Grows-trans (rows_of db s) (rows_of db t.state) (rows_of db u) inv.grows g;
    served = λ j. elim (Bool-cases (eqb i j)) [
      | inl same ↦ rw same v
      | inr differ ↦
          rw differ (Served-Grows (t.pcs j) (rows_of db t.state) (rows_of db u) g (inv.served j))
    ];
  }

  Step-Raced : (s : db.State) (t u : System db) → Step db t u → Raced s t → Raced s u
  Step-Raced s t u (queries i {c} h) inv =
      let p = λ (r : ClusterSnapshotRow). r.cluster_id == c.cluster_id in
      let (found, state) = db.take_snapshot p t.state in
      let same : rows_of db t.state ≡ rows_of db state =
        ap (λ z. z.snapshots) (sym (lawful.take_frame p t.state)) in
      moves-Raced s t i (answered c found) state inv (subst IsIndexed same inv.indexed)
        (subst (Grows (rows_of db t.state)) same (Grows-same (rows_of db t.state)))
        (subst (Served (answered c found)) same (take-Served db lawful c t.state found refl))
  Step-Raced s t u (writes i {c} {found} h) inv =
      let wrote =
        create_or_update-Wrote db lawful c found t.state inv.indexed
          (subst (λ pc. Served pc (rows_of db t.state)) h (inv.served i)) in
      moves-Raced s t i _ _ inv wrote.indexed wrote.grows wrote.served
  Step-Raced s t u (others state h) inv = record {
    indexed = subst IsIndexed (sym h) inv.indexed;
    grows = subst (Grows (rows_of db s)) (sym h) inv.grows;
    served = λ i. subst (Served (t.pcs i)) (sym h) (inv.served i);
  }

  -- However the statements of any number of calls of CreateOrUpdateClusterSnapshot interleave, over
  -- a lawful database and from an indexed table: the table is indexed in every state that is
  -- reached, the clusters that were registered keep their primary keys and their tenants and stand
  -- before the new ones, the row that a call was answered is still there with its key, and behind
  -- each call that returned without an error its cluster is registered.
  pub Reach-Raced :
      (t u : System db)
      → IsIndexed (rows_of db t.state)
      → ((i : ℕ) → (c : ClusterSnapshotRow) × (t.pcs i ≡ arriving c))
      → Reach db t u
      → Raced t.state u
  Reach-Raced t u x fresh here = record {
    indexed = x;
    grows = Grows-same (rows_of db t.state);
    served = λ i. let (c, h) = fresh i in subst (λ pc. Served pc (rows_of db t.state)) (sym h) tt;
  }
  Reach-Raced t u x fresh (later {t = v} r step) =
      Step-Raced t.state v u step (Reach-Raced t v x fresh r)

  -- However the statements of any number of calls of CreateOrUpdateClusterSnapshot interleave, over
  -- a lawful database and from an indexed table: a call that was told that its cluster has no row,
  -- while another call for that cluster has returned without an error since, does not succeed when
  -- it goes on, and changes nothing.
  pub late-refused :
      (t u : System db)
      → IsIndexed (rows_of db t.state)
      → ((i : ℕ) → (c : ClusterSnapshotRow) × (t.pcs i ≡ arriving c))
      → Reach db t u
      → (i j : ℕ) (c d : ClusterSnapshotRow) → u.pcs i ≡ answered c (err record_not_found)
      → u.pcs j ≡ returned d (ok tt)
      → d.cluster_id ≡ c.cluster_id
      → ((create_or_update db c (err record_not_found) u.state).0 ≢ ok tt)
        × (db.tables (create_or_update db c (err record_not_found) u.state).1 ≡ db.tables u.state)
  unfolding create_or_update
  late-refused t u x fresh r i j c d h k e =
      let inv = Reach-Raced t u x fresh r in
      let (key, m, f) = subst (λ pc. Served pc (rows_of db u.state)) k (inv.served j) in
      let fails : (db.create_snapshot c u.state).0 ≢ ok tt = λ done.
        let (id, n, new, stored, none_yet) = lawful.create_ok c u.state done in
        unlisted key c.cluster_id (rows_of db u.state) none_yet (f ∙ e) m in
      (fails, lawful.create_failed c u.state fails)
