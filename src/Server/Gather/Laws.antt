-- ===== src/Server/Gather/Laws.antt =====
-- What the loop over the clusters has read, against the tables.
use mathlib.Core.List.Perm
use mathlib.Core.List.{Perm, append_assoc, append-nil}
use mathlib.Core.Path.{subst}
use cluster_monitor.Prelude.{◌≡◌, refl, sym, String, List, [], ◌∷◌, ◌++◌}
use cluster_monitor.Prelude.Order.{string_ord}
use cluster_monitor.Go.Result.{
  Result, ok, err, panics, out_of_rounds, Code, with_status, ok-injective, internal,
}
use cluster_monitor.Go.Exec.{Exec, or_status, bind_inversion}
use cluster_monitor.Go.Map.{GoMap, assign}
use cluster_monitor.Store.Rows.{ClusterSnapshotRow}
use cluster_monitor.Store.Database.{Db, Tables}
use cluster_monitor.Store.ReadOnly.{ReadOnly, bind-ReadOnly}
use cluster_monitor.Server.Gather.{gather_from, gather}

pub with_status-ok :
    {A : Type 0} {a : A} (k : Code) (r : Result A) → with_status k r ≡ ok a → r ≡ ok a
with_status-ok k (ok a) h = h
with_status-ok k (err e) h = cc
with_status-ok k panics h = cc
with_status-ok k out_of_rounds h = cc

-- The histories of each of the clusters, one after the other.
abbrev pub of_clusters : {H : Type 0} → (String → List H) → List ClusterSnapshotRow → List H
of_clusters f [] = []
of_clusters f (c ∷ cs) = f c.cluster_id ++ of_clusters f cs

-- The name of each of the clusters.
abbrev pub names_of : GoMap String String → List ClusterSnapshotRow → GoMap String String
names_of names [] = names
names_of names (c ∷ cs) = names_of (assign c.cluster_id c.name names) cs

module _ (db : Db) {H : Type 0} (list_histories : String → Exec db.State (List H)) where
  gather_from-ReadOnly :
      (hs : List H) (names : GoMap String String) (cs : List ClusterSnapshotRow)
      → ((id : String) → ReadOnly db (list_histories id))
      → ReadOnly db (gather_from list_histories hs names cs)
  unfolding gather_from
  gather_from-ReadOnly hs names [] f = λ s. refl
  gather_from-ReadOnly hs names (c ∷ cs) f =
      bind-ReadOnly db (or_status internal (list_histories c.cluster_id)) _ (f c.cluster_id)
        (λ chs. gather_from-ReadOnly (hs ++ chs) (assign c.cluster_id c.name names) cs f)

  pub gather-ReadOnly :
      (cs : List ClusterSnapshotRow)
      → ((id : String) → ReadOnly db (list_histories id))
      → ReadOnly db (gather list_histories cs)
  unfolding gather
  gather-ReadOnly cs f = gather_from-ReadOnly [] [] cs f

  module _ (stored : String → Tables → List H)
      (frame : (id : String) → ReadOnly db (list_histories id))
      (found : (id : String) (s : db.State) (rs : List H)
        → (list_histories id s).0 ≡ ok rs
        → Perm rs (stored id (db.tables s))) where
    -- The claim, for the histories `hs` and the names read so far.
    abbrev Gathers : List H → GoMap String String → List ClusterSnapshotRow → Type 0
    Gathers hs names cs =
        (s : db.State) (out : List H × GoMap String String)
        → (gather_from list_histories hs names cs s).0 ≡ ok out
        → Perm out.0 (hs ++ of_clusters (λ id. stored id (db.tables s)) cs)
          × (out.1 ≡ names_of names cs)

    gather_from-Gathers :
        (hs : List H) (names : GoMap String String) (cs : List ClusterSnapshotRow)
        → Gathers hs names cs
    unfolding gather_from
    gather_from-Gathers hs names [] s out e = rw (← ok-injective e) (rw append-nil (Perm.rfl, refl))
    gather_from-Gathers hs names (c ∷ cs) s out e =
        let list = or_status internal (list_histories c.cluster_id) in
        let (chs, listed, rest, _) = bind_inversion list _ s e in
        let read = found c.cluster_id s chs (with_status-ok internal _ listed) in
        let later = λ (t : Tables). of_clusters (λ id. stored id t) cs in
        let (p, q) =
          gather_from-Gathers (hs ++ chs) (assign c.cluster_id c.name names) cs (list s).1 out
            rest in
        (
          subst
              (λ t.
                Perm out.0 ((hs ++ chs) ++ later t)
                → Perm out.0 (hs ++ (stored c.cluster_id (db.tables s) ++ later (db.tables s))))
              (sym (frame c.cluster_id s))
              (λ p'. Perm.trans p' (
                rw append_assoc
                  (Perm.append_left hs (Perm.append_right (later (db.tables s)) read))))
              p,
          q,
        )

    pub gather-perm :
        (cs : List ClusterSnapshotRow) (s : db.State) (out : List H × GoMap String String)
        → (gather list_histories cs s).0 ≡ ok out
        → Perm out.0 (of_clusters (λ id. stored id (db.tables s)) cs) × (out.1 ≡ names_of [] cs)
    unfolding gather
    gather-perm cs s out e = gather_from-Gathers [] [] cs s out e
