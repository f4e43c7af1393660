-- ===== src/Agent/Snapshot/Nodes.antt =====
-- The map of the nodes, seen at one name, without its loops.
use mathlib.Core.Option
use cluster_monitor.Prelude.{
  ◌≡◌, refl, sym, ap, ◌∙◌, inl, inr, String, not, Option, none, some, List, [], ◌∷◌, foldl, keep,
  arith, if◌then◌else◌, Bool-cases,
}
use cluster_monitor.Prelude.Int.{ℤ, pos}
use cluster_monitor.Prelude.Order.{◌==◌, ==_iff, eq_of_==, string_ord, int_ord}
use cluster_monitor.Go.Map.{
  GoMap, keys, values, lookup, assign, lookup-assign, keys-assign-IsUnrepeated,
}
use cluster_monitor.Go.Sort.{IsUnrepeated}
use cluster_monitor.Api.{SnapshotNode}
use cluster_monitor.Server.Tally.Groups.{mine}
use cluster_monitor.Agent.Snapshot.{occupy, occupy_at, count_pod}

-- The last of the entries with the name `g`, or else `found`.
abbrev pub last_named : String → Option SnapshotNode → List SnapshotNode → Option SnapshotNode
last_named g found [] = found
last_named g found (n ∷ ns) = last_named g (if n.name == g then some n else found) ns

-- The requests that are not zero.
abbrev pub requests_at : String → List (String × ℤ) → List ℤ
requests_at g rs = keep (λ v. not (v == pos 0)) (mine g rs)

-- A node with the GPUs of several pods.
abbrev pub occupied : SnapshotNode → List ℤ → SnapshotNode
occupied = foldl (λ n v. occupy v n)

-- `nodesByName` behind the loop over the nodes
abbrev pub noted : GoMap String SnapshotNode → List SnapshotNode → GoMap String SnapshotNode
noted = foldl (λ m n. assign n.name n m)

-- and behind the loop over the pods
abbrev pub counted : GoMap String SnapshotNode → List (String × ℤ) → GoMap String SnapshotNode
counted = foldl (λ m r. count_pod r m)

pub noted-lookup :
    (g : String) (m : GoMap String SnapshotNode) (ns : List SnapshotNode)
    → lookup g (noted m ns) ≡ last_named g (lookup g m) ns
noted-lookup g m [] = refl
noted-lookup g m (n ∷ ns) =
    noted-lookup g (assign n.name n m) ns ∙ ap (λ o. last_named g o ns) (lookup-assign n.name g n m)

-- No GPU is requested: nothing changes.
map_same : (o : Option SnapshotNode) → o ≡ Option.map (λ n. n) o
map_same none = refl
map_same (some n) = refl

occupy_at-lookup :
    (g k : String) (v : ℤ) (m : GoMap String SnapshotNode) (o : Option SnapshotNode)
    → lookup k m ≡ o
    → lookup g (occupy_at k v o m) ≡ (if k == g then Option.map (occupy v) o else lookup g m)
occupy_at-lookup g k v m none e = ground (arith, ==_iff k g)
occupy_at-lookup g k v m (some n) e = lookup-assign k g (occupy v n) m

count_pod-lookup :
    (g k : String) (v : ℤ) (m : GoMap String SnapshotNode)
    → lookup g (count_pod (k, v) m)
      ≡ Option.map (λ n. occupied n (requests_at g ((k, v) ∷ []))) (lookup g m)
unfolding count_pod
count_pod-lookup g k v m = elim (Bool-cases (v == pos 0)) [
  | inl nought ↦ rw nought (elim (Bool-cases (k == g)) [
    | inl same ↦ rw same (rw nought (map_same (lookup g m)))
    | inr differ ↦ rw differ (map_same (lookup g m))
  ])
  | inr asks ↦ rw asks (
      occupy_at-lookup g k v m (lookup k m) refl ∙ elim (Bool-cases (k == g)) [
        | inl same ↦
            rw same (rw asks (ap (λ j. Option.map (occupy v) (lookup j m)) (eq_of_== k g same)))
        | inr differ ↦ rw differ (map_same (lookup g m))
      ])
]

-- The requests of a node come one after the other.
requests_at_cons :
    (g : String) (r : String × ℤ) (rs : List (String × ℤ)) (o : Option SnapshotNode)
    → Option.map
        (λ n. occupied n (requests_at g rs))
        (Option.map (λ n. occupied n (requests_at g (r ∷ []))) o)
      ≡ Option.map (λ n. occupied n (requests_at g (r ∷ rs))) o
requests_at_cons g r rs none = refl
requests_at_cons g (k, v) rs (some n) = elim (Bool-cases (k == g)) [
  | inl same ↦
      rw same
        (elim (Bool-cases (v == pos 0)) [ inl nought ↦ rw nought refl | inr asks ↦ rw asks refl ])
  | inr differ ↦ rw differ refl
]

pub counted-lookup :
    (g : String) (m : GoMap String SnapshotNode) (rs : List (String × ℤ))
    → lookup g (counted m rs) ≡ Option.map (λ n. occupied n (requests_at g rs)) (lookup g m)
counted-lookup g m [] = map_same (lookup g m)
counted-lookup g m (r ∷ rs) =
    counted-lookup g (count_pod r m) rs
    ∙ ap (Option.map (λ n. occupied n (requests_at g rs))) (count_pod-lookup g r.0 r.1 m)
    ∙ requests_at_cons g r rs (lookup g m)

-- Every entry stands under its own name, and no name stands twice.
abbrev Named : GoMap String SnapshotNode → Type 0
Named [] = Unit
Named ((k, n) ∷ m) = (n.name ≡ k) × Named m

assign-Named :
    (k : String) (n : SnapshotNode) (m : GoMap String SnapshotNode)
    → n.name ≡ k
    → Named m
    → Named (assign k n m)
unfolding assign
assign-Named k n [] e h = (e, tt)
assign-Named k n ((j, w) ∷ m) e (d, h) = elim (Bool-cases (j == k)) [
  | inl same ↦ rw same (e ∙ sym (eq_of_== j k same), h)
  | inr differ ↦ rw differ (d, assign-Named k n m e h)
]

lookup-Named :
    (k : String) (n : SnapshotNode) (m : GoMap String SnapshotNode)
    → Named m
    → lookup k m ≡ some n
    → n.name ≡ k
unfolding lookup
lookup-Named k n [] h e = cc
lookup-Named k n ((j, w) ∷ m) (d, h) e = ground (arith, ==_iff j k, lookup-Named k n m h)

abbrev IsTable : GoMap String SnapshotNode → Type 0
IsTable m = Named m × IsUnrepeated (keys m)

noted-IsTable :
    (m : GoMap String SnapshotNode) (ns : List SnapshotNode) → IsTable m → IsTable (noted m ns)
noted-IsTable m [] t = t
noted-IsTable m (n ∷ ns) (h, u) =
    noted-IsTable (assign n.name n m) ns
      (assign-Named n.name n m refl h, keys-assign-IsUnrepeated n.name n m u)

occupy_at-IsTable :
    (k : String) (v : ℤ) (m : GoMap String SnapshotNode) (o : Option SnapshotNode)
    → lookup k m ≡ o
    → IsTable m
    → IsTable (occupy_at k v o m)
unfolding occupy
occupy_at-IsTable k v m none e t = t
occupy_at-IsTable k v m (some n) e (h, u) = (
  assign-Named k (occupy v n) m (lookup-Named k n m h e) h,
  keys-assign-IsUnrepeated k (occupy v n) m u,
)

counted-IsTable :
    (m : GoMap String SnapshotNode) (rs : List (String × ℤ)) → IsTable m → IsTable (counted m rs)
unfolding count_pod
counted-IsTable m [] t = t
counted-IsTable m ((k, v) ∷ rs) t =
    counted-IsTable (count_pod (k, v) m) rs (elim (Bool-cases (v == pos 0)) [
      | inl nought ↦ rw nought t
      | inr asks ↦ rw asks (occupy_at-IsTable k v m (lookup k m) refl t)
    ])

-- The nodes of a snapshot, and the node of a name among them.
abbrev pub find_node : String → List SnapshotNode → Option SnapshotNode
find_node g [] = none
find_node g (n ∷ ns) = if n.name == g then some n else find_node g ns

abbrev pub node_names : List SnapshotNode → List String
node_names [] = []
node_names (n ∷ ns) = n.name ∷ node_names ns

find_node-values :
    (g : String) (m : GoMap String SnapshotNode) → Named m → find_node g (values m) ≡ lookup g m
unfolding lookup
find_node-values g [] h = refl
find_node-values g ((k, n) ∷ m) (e, h) = rw e (ground (arith, find_node-values g m h))

node_names-values : (m : GoMap String SnapshotNode) → Named m → node_names (values m) ≡ keys m
node_names-values [] h = refl
node_names-values ((k, n) ∷ m) (e, h) = rw e (ap (λ l. k ∷ l) (node_names-values m h))

-- The map behind both loops.
abbrev pub table : List SnapshotNode → List (String × ℤ) → GoMap String SnapshotNode
table ns rs = counted (noted [] ns) rs

pub table-find :
    (g : String) (ns : List SnapshotNode) (rs : List (String × ℤ))
    → find_node g (values (table ns rs))
      ≡ Option.map (λ n. occupied n (requests_at g rs)) (last_named g none ns)
unfolding lookup
table-find g ns rs =
    let t = counted-IsTable (noted [] ns) rs (noted-IsTable [] ns (tt, tt)) in
    find_node-values g (table ns rs) t.0
    ∙ counted-lookup g (noted [] ns) rs
    ∙ ap (Option.map (λ n. occupied n (requests_at g rs))) (noted-lookup g [] ns)

pub table-IsUnrepeated :
    (ns : List SnapshotNode) (rs : List (String × ℤ))
    → IsUnrepeated (node_names (values (table ns rs)))
table-IsUnrepeated ns rs =
    let t = counted-IsTable (noted [] ns) rs (noted-IsTable [] ns (tt, tt)) in
    rw (node_names-values (table ns rs) t.0) t.1
