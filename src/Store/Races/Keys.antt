-- ===== src/Store/Races/Keys.antt =====
-- What never changes of a row: its primary key, its cluster and its tenant.
use mathlib.Core.Path.{ap₂}
use mathlib.Core.List.{Memᴰ}
use mathlib.Core.List.Memᴰ
use cluster_monitor.Prelude.{
  ℕ, ◌≡◌, ◌≢◌, refl, sym, ap, ◌∙◌, inl, inr, String, false, List, [], ◌∷◌, ◌++◌, map, arith, eqb,
  Bool-cases,
}
use cluster_monitor.Prelude.Order.{◌==◌, ==_iff, eq_of_==, string_ord}
use cluster_monitor.Store.Rows.{ClusterSnapshotRow}
use cluster_monitor.Store.Database.{of_cluster, replace}
use cluster_monitor.Store.Registered.{Alone, IsIndexed, replace-Alone}

abbrev pub Key : Type 0
Key = ℕ × String × String

abbrev pub key : ClusterSnapshotRow → Key
key r = (r.id, r.cluster_id, r.tenant_id)

abbrev pub keys_of : List ClusterSnapshotRow → List Key
keys_of = map key

cons_split {ℓ} : {A : Type ℓ} {x y : A} {xs ys : List A} → x ∷ xs ≡ y ∷ ys → (x ≡ y) × (xs ≡ ys)
cons_split e = (cc, cc)

-- The indexes are a matter of the keys alone.
Alone-keys :
    (r q : ClusterSnapshotRow) (rows others : List ClusterSnapshotRow)
    → key r ≡ key q
    → keys_of rows ≡ keys_of others
    → Alone r rows
    → Alone q others
Alone-keys r q [] [] h e a = tt
Alone-keys r q [] (p ∷ others) h e a = cc
Alone-keys r q (p ∷ rows) [] h e a = cc
Alone-keys r q (p ∷ rows) (p' ∷ others) h e (i, c, a) =
    let (first, rest) = cons_split e in
    (
      ap₂ eqb (sym (ap (λ k. k.0) first)) (sym (ap (λ k. k.0) h)) ∙ i,
      ap₂ (λ a b. a == b) (sym (ap (λ k. k.1) first)) (sym (ap (λ k. k.1) h)) ∙ c,
      Alone-keys r q rows others h rest a,
    )

pub IsIndexed-keys :
    (rows others : List ClusterSnapshotRow)
    → keys_of rows ≡ keys_of others
    → IsIndexed rows
    → IsIndexed others
IsIndexed-keys [] [] e x = tt
IsIndexed-keys [] (q ∷ others) e x = cc
IsIndexed-keys (r ∷ rows) [] e x = cc
IsIndexed-keys (r ∷ rows) (q ∷ others) e (n, a, x) =
    let (first, rest) = cons_split e in
    (
      λ z. n (ap (λ k. k.0) first ∙ z),
      Alone-keys r q rows others first rest a,
      IsIndexed-keys rows others rest x,
    )

-- A row that stands alone has another primary key than those that are listed.
other_key :
    (r : ClusterSnapshotRow) (k : Key) (rows : List ClusterSnapshotRow)
    → Alone r rows
    → Memᴰ k (keys_of rows)
    → eqb r.id k.0 ≡ false
other_key r k [] a m = absurd (Memᴰ.not-nil m)
other_key r k (q ∷ rows) (i, c, a) (Memᴰ.head e) =
    let same : k.0 ≡ q.id = ap (λ j. j.0) e in ground arith
other_key r k (q ∷ rows) (i, c, a) (Memᴰ.tail m) = other_key r k rows a m

-- Writing another name into a listed row keeps the keys.
pub keys_of-replace :
    (e : ClusterSnapshotRow) (name : String) (rows : List ClusterSnapshotRow)
    → IsIndexed rows
    → Memᴰ (key e) (keys_of rows)
    → keys_of (replace (record e { name = name }) rows) ≡ keys_of rows
keys_of-replace e name [] x m = refl
keys_of-replace e name (r ∷ rows) (n, a, x) (Memᴰ.head h) =
    let same : r.id ≡ e.id = sym (ap (λ k. k.0) h) in
    rw (replace-Alone r (record e { name = name }) rows same a) (elim (Bool-cases (eqb r.id e.id)) [
      | inl eq ↦ rw eq (ap (λ k. k ∷ keys_of rows) h)
      | inr ne ↦ rw ne refl
    ])
keys_of-replace e name (r ∷ rows) (n, a, x) (Memᴰ.tail m) =
    rw (other_key r (key e) rows a m) (ap (λ l. key r ∷ l) (keys_of-replace e name rows x m))

pub listed-ne-zero :
    (k : Key) (rows : List ClusterSnapshotRow) → IsIndexed rows → Memᴰ k (keys_of rows) → k.0 ≢ 0
listed-ne-zero k [] x m = absurd (Memᴰ.not-nil m)
listed-ne-zero k (r ∷ rows) (n, a, x) (Memᴰ.head h) = λ z. n (sym (ap (λ j. j.0) h) ∙ z)
listed-ne-zero k (r ∷ rows) (n, a, x) (Memᴰ.tail m) = listed-ne-zero k rows x m

-- A row that a query found is listed.
pub listed_of_cluster :
    (id : String) (rows before after : List ClusterSnapshotRow) (e : ClusterSnapshotRow)
    → of_cluster id rows ≡ before ++ e ∷ after
    → Memᴰ (key e) (keys_of rows) × (e.cluster_id ≡ id)
listed_of_cluster id [] [] after e h = cc
listed_of_cluster id [] (b ∷ before) after e h = cc
listed_of_cluster id (r ∷ rows) [] after e h = elim (Bool-cases (r.cluster_id == id)) [
  | inl same ↦
      let first : r ≡ e = (cons_split (rw same at h)).0 in
      rw (← first) (Memᴰ.head refl, eq_of_== r.cluster_id id same)
  | inr other ↦
      let (m, c) = listed_of_cluster id rows [] after e (rw other at h) in (Memᴰ.tail m, c)
]
listed_of_cluster id (r ∷ rows) (b ∷ before) after e h = elim (Bool-cases (r.cluster_id == id)) [
  | inl same ↦
      let (m, c) = listed_of_cluster id rows before after e ((cons_split (rw same at h)).1) in
      (Memᴰ.tail m, c)
  | inr other ↦
      let (m, c) = listed_of_cluster id rows (b ∷ before) after e (rw other at h) in
      (Memᴰ.tail m, c)
]

-- A cluster without rows is not listed.
pub unlisted :
    (k : Key) (id : String) (rows : List ClusterSnapshotRow)
    → of_cluster id rows ≡ []
    → k.1 ≡ id
    → ¬ Memᴰ k (keys_of rows)
unlisted k id [] h e m = Memᴰ.not-nil m
unlisted k id (r ∷ rows) h e m = elim (Bool-cases (r.cluster_id == id)) [
  | inl same ↦ let filled : r ∷ of_cluster id rows ≡ [] = sym (rw same refl) ∙ h in cc
  | inr other ↦ elim m [
    | Memᴰ.head f ↦ ground (arith, ==_iff r.cluster_id id, e, ap (λ j. j.1) f)
    | Memᴰ.tail rest ↦ unlisted k id rows (rw other at h) e rest
  ]
]
