-- ===== src/Go/Keys.antt =====
-- The keys of a map as a set: whether a key is there, and lists that differ in their order alone.
use mathlib.Core.List.{Perm, Mem, Nodup, mem-cons, Nodup-cons, not-mem-nil, perm_ext_iff_of_Nodup}
use mathlib.Core.List.{Nodup-nil}
use mathlib.Core.Logic.Or
use cluster_monitor.Prelude.{
  ◌≡◌, ◌⊎◌, refl, sym, ap, ◌∙◌, inl, inr, Bool, true, false, ◌||◌, Option, none, some, List, [],
  ◌∷◌, map, arith, Bool-cases,
}
use cluster_monitor.Prelude.Order.{Ord, ◌==◌, ◌≺◌, eq_of_==, ==_iff, ==_refl}
use mathlib.Core.List.Perm
use mathlib.Core.Path.{fun_ext, ap₂}
use cluster_monitor.Go.Map.{GoMap, values, keys, lookup, assign, lookup-assign}
use cluster_monitor.Go.Sort.{AllOther, IsUnrepeated, AllAbove, IsAscending}

abbrev pub is_some {ℓ} : {S : Type ℓ} → Option S → Bool
is_some none = false
is_some (some s) = true

module _ {K : Type 0} ⦃o : Ord K⦄ where
  abbrev pub has : K → List K → Bool
  has g [] = false
  has g (k ∷ l) = k == g || has g l

  pub has-keys : {S : Type 0} (g : K) (m : GoMap K S) → has g (keys m) ≡ is_some (lookup g m)
  unfolding keys lookup
  has-keys g [] = refl
  has-keys g ((k, v) ∷ m) = ground (arith, has-keys g m)

  pub has-keys-assign :
      {S : Type 0} (g k : K) (v : S) (m : GoMap K S)
      → has g (keys (assign k v m)) ≡ (k == g || has g (keys m))
  has-keys-assign g k v m =
      has-keys g (assign k v m) ∙ ap is_some (lookup-assign k g v m) ∙ ground (arith, has-keys g m)

  has_of_mem : (g : K) (l : List K) → Mem g l → has g l ≡ true
  has_of_mem g [] h = absurd (not-mem-nil h)
  has_of_mem g (k ∷ l) h =
      Or.elim (hlevel) (mem-cons.0 h) (λ e. ground (arith, ==_iff k g, sym e))
        (λ m. ground (arith, has_of_mem g l m))

  mem_of_has : (g : K) (l : List K) → has g l ≡ true → Mem g l
  mem_of_has g [] h = cc
  mem_of_has g (k ∷ l) h = elim (Bool-cases (k == g)) [
    | inl e ↦ mem-cons.1 (Or.inl (sym (eq_of_== k g e)))
    | inr e ↦ mem-cons.1 (Or.inr (mem_of_has g l (rw e at h)))
  ]

  other_of_mem : (k : K) (l : List K) → AllOther k l → ¬ Mem k l
  other_of_mem k [] a h = not-mem-nil h
  other_of_mem k (x ∷ l) (b, a) h =
      Or.elim (hlevel) (mem-cons.0 h) (λ e. cc (b, (==_iff k x).1 e)) (other_of_mem k l a)

  Nodup-of_unrepeated : (l : List K) → IsUnrepeated l → Nodup l
  Nodup-of_unrepeated [] u = Nodup-nil
  Nodup-of_unrepeated (k ∷ l) (n, u) = Nodup-cons.1 (other_of_mem k l n, Nodup-of_unrepeated l u)

  -- Lists without repetition that have the same keys differ in their order alone.
  pub perm_of_has :
      (l m : List K) → IsUnrepeated l → IsUnrepeated m → ((g : K) → has g l ≡ has g m) → Perm l m
  perm_of_has l m u v h =
      (perm_ext_iff_of_Nodup (Nodup-of_unrepeated l u) (Nodup-of_unrepeated m v)).1 λ g. (
        λ a. mem_of_has g m (sym (h g) ∙ has_of_mem g l a),
        λ a. mem_of_has g l (h g ∙ has_of_mem g m a),
      )

module _ {K : Type 0} ⦃o : Ord K⦄ where
  above_of_has : (k g : K) (l : List K) → AllAbove k l → has g l ≡ true → (k ≺ g) ≡ true
  above_of_has k g [] a h = cc
  above_of_has k g (x ∷ l) (b, a) h = elim (Bool-cases (x == g)) [
    | inl same ↦ rw (← eq_of_== x g same) b
    | inr differ ↦ above_of_has k g l a (rw differ at h)
  ]

  below_all : (k : K) (l : List K) → AllAbove k l → has k l ≡ false
  below_all k l a = elim (Bool-cases (has k l)) [
    | inl found ↦ absurd (cc (above_of_has k k l a found, o.cmp_refl k))
    | inr missing ↦ missing
  ]

  skip : (k g : K) (l : List K) → (k == g) ≡ false → has g (k ∷ l) ≡ has g l
  skip k g l e = rw e refl

  -- The head of one is listed in the other.
  heads : (k x : K) (l : List K) → AllAbove x l → has k (x ∷ l) ≡ true → (x ≡ k) ⊎ ((x ≺ k) ≡ true)
  heads k x l a h = elim (Bool-cases (x == k)) [
    | inl same ↦ inl (eq_of_== x k same)
    | inr differ ↦ inr (above_of_has x k l a (rw differ at h))
  ]

  same_heads :
      (k x : K) (l m : List K)
      → IsAscending (k ∷ l)
      → IsAscending (x ∷ m)
      → ((g : K) → has g (k ∷ l) ≡ has g (x ∷ m))
      → k ≡ x
  same_heads k x l m (a, s) (b, t) h = elim (heads k x m b (sym (h k) ∙ rw (==_refl k) refl)) [
    | inl e ↦ sym e
    | inr below ↦ elim (heads x k l a (h x ∙ rw (==_refl x) refl)) [
      | inl e ↦ e
      | inr above ↦ absurd (ground (arith, o.cmp_flip k x))
    ]
  ]

  -- Ascending lists with the same keys are the same.
  pub ascending_ext :
      (l m : List K) → IsAscending l → IsAscending m → ((g : K) → has g l ≡ has g m) → l ≡ m
  ascending_ext [] [] s t h = refl
  ascending_ext [] (x ∷ m) s t h = cc (h x, ==_refl x)
  ascending_ext (k ∷ l) [] s t h = cc (h k, ==_refl k)
  ascending_ext (k ∷ l) (x ∷ m) (a, s) (b, t) h =
      let same = same_heads k x l m (a, s) (b, t) h in
      rw (← same) (
        ap (λ z. k ∷ z)
          (ascending_ext l m s t λ g. elim (Bool-cases (k == g)) [
            | inl e ↦
                let here : k ≡ g = eq_of_== k g e in
                ap (λ z. has z l) (sym here)
                ∙ below_all k l a
                ∙ sym (below_all k m (rw same b))
                ∙ ap (λ z. has z m) here
            | inr e ↦ sym (skip k g l e) ∙ h g ∙ skip x g m (ap (λ z. z == g) (sym same) ∙ e)
          ]))

-- `m[k]`, which is a value of its own where the key is absent.
abbrev or_missing : {V : Type 0} → V → Option V → V
or_missing missing none = missing
or_missing missing (some v) = v

module _ {K V : Type 0} ⦃o : Ord K⦄ (missing : V) where
  abbrev value_at : GoMap K V → K → V
  value_at m k = or_missing missing (lookup k m)

  values_behind :
      (j : K) (v : V) (m : GoMap K V) (ks : List K)
      → AllOther j ks
      → map (value_at ((j, v) ∷ m)) ks ≡ map (value_at m) ks
  unfolding lookup
  values_behind j v m [] a = refl
  values_behind j v m (k ∷ ks) (n, a) =
      let behind : lookup k ((j, v) ∷ m) ≡ lookup k m = rw n refl in
      ap₂ (λ x l. x ∷ l) (ap (or_missing missing) behind) (values_behind j v m ks a)

  values-eq-map : (m : GoMap K V) → IsUnrepeated (keys m) → values m ≡ map (value_at m) (keys m)
  unfolding lookup
  values-eq-map [] u = refl
  values-eq-map ((j, v) ∷ m) (n, u) =
      let first : lookup j ((j, v) ∷ m) ≡ some v = rw (==_refl j) refl in
      ap₂ (λ x l. x ∷ l) (sym (ap (or_missing missing) first))
        (values-eq-map m u ∙ sym (values_behind j v m (keys m) n))

  -- Maps that hold the same at every key have the same values, in some order.
  pub values-perm :
      (m m' : GoMap K V)
      → IsUnrepeated (keys m)
      → IsUnrepeated (keys m')
      → ((k : K) → lookup k m ≡ lookup k m')
      → Perm (values m) (values m')
  values-perm m m' u u' h =
      let same_keys : Perm (keys m) (keys m') =
        perm_of_has (keys m) (keys m') u u'
          (λ g. has-keys g m ∙ ap is_some (h g) ∙ sym (has-keys g m')) in
      let same_values : value_at m ≡ value_at m' = fun_ext λ k. ap (or_missing missing) (h k) in
      rw (values-eq-map m u)
        (rw (values-eq-map m' u') (rw same_values (Perm.map (value_at m') same_keys)))
