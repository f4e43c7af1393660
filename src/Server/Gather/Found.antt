-- ===== src/Server/Gather/Found.antt =====
-- The histories of each cluster among those that were read.
use mathlib.Core.List.{append-nil}
use mathlib.Core.Path.{ap₂}
use cluster_monitor.Prelude.{
  ◌+◌, ◌≤◌, ◌≡◌, refl, ap, ◌∙◌, inl, inr, String, Bool, false, List, [], ◌∷◌, ◌++◌, keep, length,
  length-append, keep-append, arith, Bool-cases, ◌&&◌,
}
use cluster_monitor.Prelude.Order.{◌==◌, ==_comm, ==_iff, eq_of_==, string_ord}
use cluster_monitor.Store.Rows.{ClusterSnapshotRow}
use cluster_monitor.Store.Database.{of_cluster}
use cluster_monitor.Server.Gather.Laws.{of_clusters}

module _ {H : Type 0} (cluster_of : H → String) (q : H → Bool) where
  abbrev pub found : List H → String → List H
  found hs id = keep (λ h. cluster_of h == id && q h) hs

  found_none : (cs : List ClusterSnapshotRow) → of_clusters (found []) cs ≡ []
  found_none [] = refl
  found_none (c ∷ cs) = found_none cs

  found_more :
      (h : H) (hs : List H) (cs : List ClusterSnapshotRow)
      → length (of_clusters (found (h ∷ hs)) cs)
        ≤ length (of_cluster (cluster_of h) cs) + length (of_clusters (found hs) cs)
  found_more h hs [] = omega arith
  found_more h hs (c ∷ cs) =
      let later = found_more h hs cs in
      let more = length-append (found (h ∷ hs) c.cluster_id) (of_clusters (found (h ∷ hs)) cs) in
      let fewer = length-append (found hs c.cluster_id) (of_clusters (found hs) cs) in
      ground (arith, ==_comm (cluster_of h) c.cluster_id)

  -- Where each cluster comes once at most, no history is read twice.
  pub length-of_clusters :
      (hs : List H) (cs : List ClusterSnapshotRow)
      → ((id : String) → length (of_cluster id cs) ≤ 1)
      → length (of_clusters (found hs) cs) ≤ length hs
  length-of_clusters [] cs once = rw (found_none cs) (omega arith)
  length-of_clusters (h ∷ hs) cs once =
      omega (arith, found_more h hs cs, once (cluster_of h), length-of_clusters hs cs once)

module _ {H : Type 0} (cluster_of : H → String) (q : H → Bool) (id : String) where
  own_same :
      (hs : List H)
      → keep (λ h. cluster_of h == id) (found cluster_of q hs id)
        ≡ keep q (keep (λ h. cluster_of h == id) hs)
  own_same [] = refl
  own_same (h ∷ hs) = ground (arith, own_same hs)

  own_other :
      (hs : List H) (other : String)
      → (other == id) ≡ false
      → keep (λ h. cluster_of h == id) (found cluster_of q hs other) ≡ []
  own_other [] other n = refl
  own_other (h ∷ hs) other n =
      ground (arith, own_other hs other, ==_iff (cluster_of h) other, ==_iff (cluster_of h) id)

  own_unread :
      (hs : List H) (cs : List ClusterSnapshotRow)
      → of_cluster id cs ≡ []
      → keep (λ h. cluster_of h == id) (of_clusters (found cluster_of q hs) cs) ≡ []
  own_unread hs [] e = refl
  own_unread hs (c ∷ cs) e = elim (Bool-cases (c.cluster_id == id)) [
    | inl same ↦ cc (rw same at e)
    | inr differ ↦
        keep-append (λ h. cluster_of h == id) (found cluster_of q hs c.cluster_id)
          (of_clusters (found cluster_of q hs) cs)
        ∙ ap₂ (λ l m. l ++ m) (own_other hs c.cluster_id differ) (own_unread hs cs (rw differ at e))
  ]

  -- Where a cluster is read, its histories are those that pass the test.
  pub own_read :
      (hs : List H) (cs : List ClusterSnapshotRow) (r : ClusterSnapshotRow)
      → of_cluster id cs ≡ r ∷ []
      → keep (λ h. cluster_of h == id) (of_clusters (found cluster_of q hs) cs)
        ≡ keep q (keep (λ h. cluster_of h == id) hs)
  own_read hs [] r e = cc
  own_read hs (c ∷ cs) r e =
      keep-append (λ h. cluster_of h == id) (found cluster_of q hs c.cluster_id)
        (of_clusters (found cluster_of q hs) cs)
      ∙ elim (Bool-cases (c.cluster_id == id)) [
        | inl same ↦
            let tail : of_cluster id cs ≡ [] = cc (rw same at e) in
            ap₂ (λ l m. l ++ m)
              (ap (λ z. keep (λ h. cluster_of h == id) (found cluster_of q hs z))
                  (eq_of_== c.cluster_id id same)
                ∙ own_same hs)
              (own_unread hs cs tail)
            ∙ append-nil (keep q (keep (λ h. cluster_of h == id) hs))
        | inr differ ↦
            ap₂ (λ l m. l ++ m) (own_other hs c.cluster_id differ)
              (own_read hs cs r (rw differ at e))
      ]
