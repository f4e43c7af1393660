-- ===== src/Go/Map.antt =====
-- Go's maps, as association lists in the order in which the keys were first stored. Go leaves the
-- order of `range` open: the model visits a map in the order of the list.
use mathlib.Core.Option
use cluster_monitor.Prelude.{
  ◌≡◌, refl, Option, none, some, List, [], ◌∷◌, inl, inr, Bool-cases, false, arith, if◌then◌else◌,
}
use cluster_monitor.Go.Sort.{AllOther, IsUnrepeated}
use cluster_monitor.Prelude.Order.{Ord, ◌==◌, ==_iff}

abbrev pub GoMap {ℓ κ} : Type ℓ → Type κ → Type (ℓ ⊔ κ)
GoMap K V = List (K × V)

-- `for k := range m`
abbrev pub keys {ℓ κ} : {K : Type ℓ} {V : Type κ} → GoMap K V → List K
keys [] = []
keys (e ∷ m) = e.0 ∷ keys m

-- `for _, v := range m`
abbrev pub values {ℓ κ} : {K : Type ℓ} {V : Type κ} → GoMap K V → List V
values [] = []
values (e ∷ m) = e.1 ∷ values m

-- the list at a key, which is nil where the key is absent
abbrev pub or_nil {ℓ} : {A : Type ℓ} → Option (List A) → List A
or_nil none = []
or_nil (some l) = l

module _ {ℓ κ} {K : Type ℓ} {V : Type κ} ⦃o : Ord K⦄ where
  -- `m[k] = v`
  unfoldable pub assign : K → V → GoMap K V → GoMap K V
  assign k v [] = (k, v) ∷ []
  assign k v ((j, w) ∷ m) = if j == k then (j, v) ∷ m else (j, w) ∷ assign k v m

  -- `m[k]`, with `none` where the key is absent
  unfoldable pub lookup : K → GoMap K V → Option V
  lookup k [] = none
  lookup k ((j, v) ∷ m) = if j == k then some v else lookup k m

  pub lookup-assign :
      (k j : K) (v : V) (m : GoMap K V)
      → lookup j (assign k v m) ≡ (if k == j then some v else lookup j m)
  unfolding lookup assign
  lookup-assign k j v [] = refl
  lookup-assign k j v ((i, w) ∷ m) =
      ground (arith, ==_iff k j, ==_iff i k, ==_iff i j, lookup-assign k j v m)

  AllOther-keys-assign :
      (i k : K) (v : V) (m : GoMap K V)
      → (i == k) ≡ false
      → AllOther i (keys m)
      → AllOther i (keys (assign k v m))
  unfolding assign
  AllOther-keys-assign i k v [] h a = (h, tt)
  AllOther-keys-assign i k v ((j, w) ∷ m) h (b, a) = elim (Bool-cases (j == k)) [
    | inl e ↦ rw e (b, a)
    | inr e ↦ rw e (b, AllOther-keys-assign i k v m h a)
  ]

  -- No key stands twice in a map.
  pub keys-assign-IsUnrepeated :
      (k : K) (v : V) (m : GoMap K V) → IsUnrepeated (keys m) → IsUnrepeated (keys (assign k v m))
  unfolding assign
  keys-assign-IsUnrepeated k v [] u = (tt, tt)
  keys-assign-IsUnrepeated k v ((j, w) ∷ m) (n, u) = elim (Bool-cases (j == k)) [
    | inl e ↦ rw e (n, u)
    | inr e ↦ rw e (AllOther-keys-assign j k v m e n, keys-assign-IsUnrepeated k v m u)
  ]

-- The values, each with a change made to it in place.
unfoldable pub map_values {ℓ κ} : {K : Type ℓ} {V : Type κ} → (V → V) → GoMap K V → GoMap K V
map_values f [] = []
map_values f ((k, v) ∷ m) = (k, f v) ∷ map_values f m

abbrev pub AllValues {ℓ κ} : {K : Type ℓ} {V : Type κ} → (V → Type 0) → GoMap K V → Type 0
AllValues P [] = Unit
AllValues P ((k, v) ∷ m) = P v × AllValues P m

module _ {ℓ κ} {K : Type ℓ} {V : Type κ} ⦃o : Ord K⦄ where
  pub lookup-map_values :
      (f : V → V) (k : K) (m : GoMap K V) → lookup k (map_values f m) ≡ Option.map f (lookup k m)
  unfolding lookup map_values
  lookup-map_values f k [] = refl
  lookup-map_values f k ((j, v) ∷ m) = ground (arith, lookup-map_values f k m)

  lookup_other :
      (j k : K) (v w : V) (m : GoMap K V)
      → AllOther j (keys m)
      → lookup k m ≡ some w
      → lookup k ((j, v) ∷ m) ≡ some w
  unfolding lookup
  lookup_other j k v w [] a h = cc
  lookup_other j k v w ((i, x) ∷ m) (b, a) h =
      ground (arith, ==_iff j k, ==_iff i k, ==_iff j i, lookup_other j k v w m a)

  -- What holds of the value of every key holds of every value.
  pub AllValues-of_lookup :
      (P : V → Type 0) (m : GoMap K V)
      → IsUnrepeated (keys m)
      → ((k : K) (v : V) → lookup k m ≡ some v → P v)
      → AllValues P m
  unfolding lookup
  AllValues-of_lookup P [] u h = tt
  AllValues-of_lookup P ((j, v) ∷ m) (n, u) h = (
    h j v (ground (arith, ==_iff j j)),
    AllValues-of_lookup P m u (λ k w e. h k w (lookup_other j k v w m n e)),
  )
