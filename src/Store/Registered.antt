-- ===== src/Store/Registered.antt =====
-- The table of clusters as a map: the name and the tenant of each cluster.
use cluster_monitor.Prelude.{
  ◌≡◌, ◌≢◌, refl, sym, ap, ◌∙◌, inl, inr, String, false, Option, none, some, List, [], ◌∷◌, ◌++◌,
  arith, eqb, if◌then◌else◌, Bool-cases,
}
use cluster_monitor.Prelude.Order.{◌==◌, ==_iff, eq_of_==, string_ord}
use cluster_monitor.Store.Rows.{ClusterSnapshotRow}
use cluster_monitor.Store.Database.{of_cluster, replace}

pub record Registered : Type 0 where
  pub name : String
  pub tenant : String

-- The entry of a cluster.
abbrev pub registered : String → List ClusterSnapshotRow → Option Registered
registered id [] = none
registered id (r ∷ rows) =
    if r.cluster_id == id
    then some (record { name = r.name; tenant = r.tenant_id })
    else registered id rows

-- No later row has the primary key or the cluster of this one.
abbrev pub Alone : ClusterSnapshotRow → List ClusterSnapshotRow → Type 0
Alone r [] = Unit
Alone r (q ∷ rows) =
    (eqb q.id r.id ≡ false) × ((q.cluster_id == r.cluster_id) ≡ false) × Alone r rows

-- Primary keys start at 1, and the two unique indexes hold.
abbrev pub IsIndexed : List ClusterSnapshotRow → Type 0
IsIndexed [] = Unit
IsIndexed (r ∷ rows) = (r.id ≢ 0) × Alone r rows × IsIndexed rows

-- The name is the one that was sent; the tenant is that of the first registration.
abbrev pub update_entry : ClusterSnapshotRow → Option Registered → Registered
update_entry c none = record { name = c.name; tenant = c.tenant_id }
update_entry c (some r) = record { name = c.name; tenant = r.tenant }

-- Adding a row.
pub registered-append :
    (c : ClusterSnapshotRow) (id : String) (rows : List ClusterSnapshotRow)
    → of_cluster c.cluster_id rows ≡ []
    → registered id (rows ++ c ∷ []) ≡ (
        if c.cluster_id == id
        then some (record { name = c.name; tenant = c.tenant_id })
        else registered id rows)
registered-append c id [] h = refl
registered-append c id (r ∷ rows) h = ground (
  arith,
  ==_iff r.cluster_id id,
  ==_iff c.cluster_id id,
  ==_iff r.cluster_id c.cluster_id,
  registered-append c id rows,
)

-- The cluster of a row that stands alone has no other row.
pub of_cluster-Alone :
    (r : ClusterSnapshotRow) (rows : List ClusterSnapshotRow)
    → Alone r rows
    → of_cluster r.cluster_id rows ≡ []
of_cluster-Alone r [] a = refl
of_cluster-Alone r (q ∷ rows) (i, c, a) = ground (arith, of_cluster-Alone r rows a)

pub replace-Alone :
    (r e : ClusterSnapshotRow) (rows : List ClusterSnapshotRow)
    → r.id ≡ e.id
    → Alone r rows
    → replace e rows ≡ rows
replace-Alone r e [] h a = refl
replace-Alone r e (q ∷ rows) h (i, c, a) = ground (arith, replace-Alone r e rows h a)

-- A row of the table that has another cluster has another primary key.
pub other_id :
    (r e : ClusterSnapshotRow) (rows : List ClusterSnapshotRow) (l : List ClusterSnapshotRow)
    → Alone r rows
    → of_cluster e.cluster_id rows ≡ e ∷ l
    → eqb r.id e.id ≡ false
other_id r e [] l a h = cc
other_id r e (q ∷ rows) l (i, c, a) h = ground (arith, other_id r e rows l a)

pub registered-replace :
    (e : ClusterSnapshotRow) (name id : String) (rows : List ClusterSnapshotRow)
    → IsIndexed rows
    → of_cluster e.cluster_id rows ≡ e ∷ []
    → registered id (replace (record e { name = name }) rows) ≡ (
        if e.cluster_id == id
        then some (record { name = name; tenant = e.tenant_id })
        else registered id rows)
registered-replace e name id [] x h = cc
registered-replace e name id (r ∷ rows) (n, a, x) h =
    elim (Bool-cases (r.cluster_id == e.cluster_id)) [
      | inl same ↦
          let first : r ≡ e = ground arith in
          ground (
            arith,
            first,
            replace-Alone r (record e { name = name }) rows (ap (λ q. q.id) first) a,
            ==_iff r.cluster_id id,
            ==_iff e.cluster_id id,
          )
      | inr differ ↦ ground (
        arith,
        ==_iff r.cluster_id id,
        ==_iff e.cluster_id id,
        ==_iff r.cluster_id e.cluster_id,
        other_id r e rows [] a,
        registered-replace e name id rows x,
      )
    ]

singleton_split :
    (r e : ClusterSnapshotRow) (before after : List ClusterSnapshotRow)
    → r ∷ [] ≡ before ++ e ∷ after
    → e ≡ r
singleton_split r e [] after h = ground arith
singleton_split r e (b ∷ []) after h = cc
singleton_split r e (b ∷ q ∷ before) after h = cc

-- The rows of a cluster are one at most.
pub of_cluster_single :
    (id : String) (rows before after : List ClusterSnapshotRow) (e : ClusterSnapshotRow)
    → IsIndexed rows
    → of_cluster id rows ≡ before ++ e ∷ after
    → (of_cluster id rows ≡ e ∷ []) × (e.cluster_id ≡ id) × (e.id ≢ 0)
of_cluster_single id [] [] after e x h = cc
of_cluster_single id [] (b ∷ before) after e x h = cc
of_cluster_single id (r ∷ rows) before after e (n, a, x) h =
    elim (Bool-cases (r.cluster_id == id)) [
      | inl same ↦
          let single : of_cluster id (r ∷ rows) ≡ r ∷ [] = rw same (
            ap (λ l. r ∷ l)
              (ap (λ k. of_cluster k rows) (sym (eq_of_== r.cluster_id id same))
                ∙ of_cluster-Alone r rows a)) in
          let first : e ≡ r = singleton_split r e before after (sym single ∙ h) in
          rw first (single, eq_of_== r.cluster_id id same, n)
      | inr differ ↦
          let here : of_cluster id (r ∷ rows) ≡ of_cluster id rows = ground arith in
          let (a, b, c) = of_cluster_single id rows before after e x (sym here ∙ h) in
          (here ∙ a, b, c)
    ]

pub registered_at :
    (e : ClusterSnapshotRow) (id : String) (rows : List ClusterSnapshotRow)
    → of_cluster id rows ≡ e ∷ []
    → registered id rows ≡ some (record { name = e.name; tenant = e.tenant_id })
registered_at e id [] h = cc
registered_at e id (r ∷ rows) h = ground (arith, registered_at e id rows)

pub registered_missing :
    (id : String) (rows : List ClusterSnapshotRow)
    → of_cluster id rows ≡ []
    → registered id rows ≡ none
registered_missing id [] h = refl
registered_missing id (r ∷ rows) h = ground (arith, registered_missing id rows)
