-- ===== src/Go/Sort.antt =====
-- `sort.Strings` and `sort.Slice`, for a total order. The program sorts lists without repetition,
-- for which every sorting function returns the same list; this one inserts.
use mathlib.Core.List.Perm
use mathlib.Core.List.{Perm}
use cluster_monitor.Prelude.{
  ◌≡◌, inl, inr, true, false, List, [], ◌∷◌, arith, if◌then◌else◌, Bool-cases,
}
use cluster_monitor.Prelude.Order.{Ord, ◌≺◌, ◌==◌}

module _ {ℓ} {K : Type ℓ} ⦃o : Ord K⦄ where
  unfoldable pub place : K → List K → List K
  place k [] = k ∷ []
  place k (x ∷ l) = if k ≺ x then k ∷ x ∷ l else x ∷ place k l

  unfoldable pub sort : List K → List K
  unfolding place
  sort [] = []
  sort (k ∷ l) = place k (sort l)

  place-perm : (k : K) (l : List K) → Perm (place k l) (k ∷ l)
  unfolding place
  place-perm k [] = Perm.rfl
  place-perm k (x ∷ l) = elim (Bool-cases (k ≺ x)) [
    | inl e ↦ rw e Perm.rfl
    | inr e ↦ rw e (Perm.trans (Perm.cons x (place-perm k l)) (Perm.swap k x l))
  ]

  pub sort-perm : (l : List K) → Perm (sort l) l
  unfolding sort
  sort-perm [] = Perm.rfl
  sort-perm (k ∷ l) = Perm.trans (place-perm k (sort l)) (Perm.cons k (sort-perm l))

  -- Every key is below all that stand behind it.
  abbrev pub AllAbove : K → List K → Type 0
  AllAbove k [] = Unit
  AllAbove k (x ∷ l) = ((k ≺ x) ≡ true) × AllAbove k l

  abbrev pub IsAscending : List K → Type 0
  IsAscending [] = Unit
  IsAscending (k ∷ l) = AllAbove k l × IsAscending l

  -- No key equals the given one; no key stands twice.
  abbrev pub AllOther : K → List K → Type 0
  AllOther k [] = Unit
  AllOther k (x ∷ l) = ((k == x) ≡ false) × AllOther k l

  abbrev pub IsUnrepeated : List K → Type 0
  IsUnrepeated [] = Unit
  IsUnrepeated (k ∷ l) = AllOther k l × IsUnrepeated l

  AllAbove-trans : (k x : K) (l : List K) → (k ≺ x) ≡ true → AllAbove x l → AllAbove k l
  AllAbove-trans k x [] h a = tt
  AllAbove-trans k x (y ∷ l) h (b, a) = (ground (arith, o.lt_trans k x y), AllAbove-trans k x l h a)

  AllAbove-place : (k x : K) (l : List K) → (x ≺ k) ≡ true → AllAbove x l → AllAbove x (place k l)
  unfolding place
  AllAbove-place k x [] h a = (h, tt)
  AllAbove-place k x (y ∷ l) h (b, a) = elim (Bool-cases (k ≺ y)) [
    | inl e ↦ rw e (h, (b, a))
    | inr e ↦ rw e (b, AllAbove-place k x l h a)
  ]

  AllOther-place : (k x : K) (l : List K) → (x == k) ≡ false → AllOther x l → AllOther x (place k l)
  unfolding place
  AllOther-place k x [] h a = (h, tt)
  AllOther-place k x (y ∷ l) h (b, a) = elim (Bool-cases (k ≺ y)) [
    | inl e ↦ rw e (h, (b, a))
    | inr e ↦ rw e (b, AllOther-place k x l h a)
  ]

  AllOther-sort : (x : K) (l : List K) → AllOther x l → AllOther x (sort l)
  unfolding sort
  AllOther-sort x [] a = tt
  AllOther-sort x (y ∷ l) (b, a) = AllOther-place y x (sort l) b (AllOther-sort x l a)

  place-IsAscending : (k : K) (l : List K) → AllOther k l → IsAscending l → IsAscending (place k l)
  unfolding place
  place-IsAscending k [] d s = (tt, tt)
  place-IsAscending k (x ∷ l) (n, d) (a, s) = elim (Bool-cases (k ≺ x)) [
    | inl e ↦ rw e ((e, AllAbove-trans k x l e a), (a, s))
    | inr e ↦
        rw e (AllAbove-place k x l (ground (arith, o.cmp_flip k x)) a, place-IsAscending k l d s)
  ]

  -- Sorting keys of which none stands twice puts them into ascending order.
  pub sort-IsAscending : (l : List K) → IsUnrepeated l → IsAscending (sort l)
  unfolding sort
  sort-IsAscending [] d = tt
  sort-IsAscending (k ∷ l) (n, d) =
      place-IsAscending k (sort l) (AllOther-sort k l n) (sort-IsAscending l d)
