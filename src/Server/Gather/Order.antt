-- ===== src/Server/Gather/Order.antt =====
-- The order in which the database returns the clusters of a tenant is of no consequence.
use mathlib.Core.List.{Perm, Permᴰ, append_assoc}
use mathlib.Core.List.Permᴰ
use mathlib.Core.Logic.{∥∥₁_elim}
use cluster_monitor.Prelude.{
  ℕ, suc, ◌≤◌, ◌≡◌, refl, sym, ap, ◌∙◌, inl, inr, String, Bool, Option, none, some, List, [], ◌∷◌,
  keep, length, arith, Bool-cases,
}
use cluster_monitor.Prelude.Perms.{keep-permᴰ, length-permᴰ}
use cluster_monitor.Prelude.Order.{◌==◌, eq_of_==, string_ord}
use cluster_monitor.Go.Map.{GoMap, lookup, assign, lookup-assign, keys, keys-assign-IsUnrepeated}
use cluster_monitor.Go.Keys.{has-keys, is_some, perm_of_has}
use cluster_monitor.Go.Sort.{IsUnrepeated}
use cluster_monitor.Store.Rows.{ClusterSnapshotRow}
use cluster_monitor.Store.Database.{of_cluster}
use cluster_monitor.Store.Registered.{Alone, IsIndexed}
use cluster_monitor.Server.Gather.Laws.{of_clusters, names_of}

-- The name that was stored last.
last_name : Option String → List ClusterSnapshotRow → Option String
last_name s [] = s
last_name s (c ∷ cs) = last_name (some c.name) cs

lookup-names_of :
    (id : String) (names : GoMap String String) (cs : List ClusterSnapshotRow)
    → lookup id (names_of names cs) ≡ last_name (lookup id names) (of_cluster id cs)
unfolding last_name
lookup-names_of id names [] = refl
lookup-names_of id names (c ∷ cs) =
    lookup-names_of id (assign c.cluster_id c.name names) cs
    ∙ rw lookup-assign (elim (Bool-cases (c.cluster_id == id)) [
      | inl same ↦ rw same refl
      | inr differ ↦ rw differ refl
    ])

-- One entry at most is in one order only.
short_perm : {A : Type 0} {l m : List A} → length l ≤ 1 → Permᴰ l m → l ≡ m
short_perm h Permᴰ.nil = refl
short_perm h (Permᴰ.cons {b = b} e p) = rw e (ap (λ z. b ∷ z) (short_perm (omega arith) p))
short_perm h (Permᴰ.swap e f) = absurd (omega arith)
short_perm h (Permᴰ.trans p q) =
    let same = length-permᴰ p in short_perm h p ∙ short_perm (omega arith) q

module _ (q : ClusterSnapshotRow → Bool) where
  Alone-kept :
      (r : ClusterSnapshotRow) (rows : List ClusterSnapshotRow)
      → Alone r rows
      → of_cluster r.cluster_id (keep q rows) ≡ []
  Alone-kept r [] a = refl
  Alone-kept r (p ∷ rows) (i, c, a) = ground (arith, Alone-kept r rows a)

  -- Of each cluster one row at most is kept.
  pub short_kept :
      (id : String) (rows : List ClusterSnapshotRow)
      → IsIndexed rows
      → length (of_cluster id (keep q rows)) ≤ 1
  short_kept id [] x = omega arith
  short_kept id (r ∷ rows) (n, a, x) =
      let later = short_kept id rows x in
      elim (Bool-cases (q r)) [
        | inl kept ↦ elim (Bool-cases (r.cluster_id == id)) [
          | inl same ↦
              let none_else : of_cluster id (keep q rows) ≡ [] =
                ap (λ z. of_cluster z (keep q rows)) (sym (eq_of_== r.cluster_id id same))
                ∙ Alone-kept r rows a in
              rw kept (rw same (rw none_else (omega arith)))
          | inr differ ↦ rw kept (rw differ later)
        ]
        | inr dropped ↦ rw dropped later
      ]

names_of-IsUnrepeated :
    (names : GoMap String String) (cs : List ClusterSnapshotRow)
    → IsUnrepeated (keys names)
    → IsUnrepeated (keys (names_of names cs))
names_of-IsUnrepeated names [] u = u
names_of-IsUnrepeated names (c ∷ cs) u =
    names_of-IsUnrepeated (assign c.cluster_id c.name names) cs
      (keys-assign-IsUnrepeated c.cluster_id c.name names u)

length-keys : {V : Type 0} (m : GoMap String V) → length (keys m) ≡ length m
length-keys [] = refl
length-keys (e ∷ m) = ap suc (length-keys m)

-- The names of the clusters, whatever the order in which they were stored.
abbrev pub SameNames : GoMap String String → GoMap String String → Type 0
SameNames names names' =
    ((id : String) → lookup id names ≡ lookup id names') × (length names ≡ length names')

ℕ-set : IsSet ℕ
ℕ-set = hlevel

SameNames-of_lookup :
    (m m' : GoMap String String)
    → IsUnrepeated (keys m)
    → IsUnrepeated (keys m')
    → ((id : String) → lookup id m ≡ lookup id m')
    → SameNames m m'
SameNames-of_lookup m m' u u' h =
    let same_keys : Perm (keys m) (keys m') =
      perm_of_has (keys m) (keys m') u u'
        (λ g. has-keys g m ∙ ap is_some (h g) ∙ sym (has-keys g m')) in
    (h, sym (length-keys m) ∙ ∥∥₁_elim same_keys (ℕ-set _ _) (λ p. length-permᴰ p) ∙ length-keys m')

module _ (q : ClusterSnapshotRow → Bool) (rows : List ClusterSnapshotRow) (x : IsIndexed rows) where
  -- The rows of one cluster, as read.
  pub of_cluster-read :
      (id : String) (cs : List ClusterSnapshotRow)
      → Permᴰ (keep q rows) cs
      → of_cluster id cs ≡ of_cluster id (keep q rows)
  of_cluster-read id cs p =
      sym (short_perm (short_kept q id rows x) (keep-permᴰ (λ r. r.cluster_id == id) p))

  pub names_of-permᴰ :
      (cs cs' : List ClusterSnapshotRow)
      → Permᴰ (keep q rows) cs
      → Permᴰ (keep q rows) cs'
      → SameNames (names_of [] cs) (names_of [] cs')
  unfolding lookup
  names_of-permᴰ cs cs' p p' =
      SameNames-of_lookup (names_of [] cs) (names_of [] cs') (names_of-IsUnrepeated [] cs tt)
        (names_of-IsUnrepeated [] cs' tt)
        (λ id.
          lookup-names_of id [] cs
          ∙ ap (last_name none) (of_cluster-read id cs p ∙ sym (of_cluster-read id cs' p'))
          ∙ sym (lookup-names_of id [] cs'))

pub of_clusters-permᴰ :
    {H : Type 0} (f : String → List H) {cs cs' : List ClusterSnapshotRow}
    → Permᴰ cs cs'
    → Permᴰ (of_clusters f cs) (of_clusters f cs')
of_clusters-permᴰ f Permᴰ.nil = Permᴰ.nil
of_clusters-permᴰ f (Permᴰ.cons {b = b} e p) =
    rw e (Permᴰ.append_left (f b.cluster_id) (of_clusters-permᴰ f p))
of_clusters-permᴰ f (Permᴰ.swap {a' = a} {b' = b} {l = l} e h) =
    let rest = of_clusters f l in
    rw e (
      rw h (
        rw (← append_assoc (f b.cluster_id) (f a.cluster_id) rest) (
          rw (← append_assoc (f a.cluster_id) (f b.cluster_id) rest)
            (Permᴰ.append_right rest (Permᴰ.append_comm (f b.cluster_id) (f a.cluster_id))))))
of_clusters-permᴰ f (Permᴰ.trans p q) = Permᴰ.trans (of_clusters-permᴰ f p) (of_clusters-permᴰ f q)
