-- ===== src/Prelude/Perms.antt =====
-- Lists in another order, filtered and measured.
use Prim.Native.Nat.{suc}
use mathlib.Core.Path.{◌≡◌, refl, ap, ◌∙◌}
use mathlib.Core.Bool.{Bool, ◌&&◌}
use mathlib.Core.Logic.{inl, inr}
use mathlib.Core.List.{List, [], ◌∷◌, Permᴰ}
use mathlib.Core.List.Permᴰ
use native.Mathlib.Omega.{arith}
use cluster_monitor.Prelude.Tests.{Bool-cases}
use cluster_monitor.Prelude.Lists.{keep, length}

pub keep-permᴰ {ℓ} :
    {A : Type ℓ} (p : A → Bool) {l m : List A} → Permᴰ l m → Permᴰ (keep p l) (keep p m)
keep-permᴰ p Permᴰ.nil = Permᴰ.nil
keep-permᴰ p (Permᴰ.cons {b = b} e q) = rw e (elim (Bool-cases (p b)) [
  | inl yes_ ↦ rw yes_ (Permᴰ.cons refl (keep-permᴰ p q))
  | inr no_ ↦ rw no_ (keep-permᴰ p q)
])
keep-permᴰ p (Permᴰ.swap {a' = a} {b' = b} {l = l} e f) = rw e (
    rw f (elim (Bool-cases (p a)) [
      | inl yes_ ↦ elim (Bool-cases (p b)) [
        | inl yes' ↦ rw yes_ (rw yes' (Permᴰ.swap refl refl))
        | inr no' ↦ rw yes_ (rw no' (Permᴰ.refl _))
      ]
      | inr no_ ↦ elim (Bool-cases (p b)) [
        | inl yes' ↦ rw no_ (rw yes' (Permᴰ.refl _))
        | inr no' ↦ rw no_ (rw no' (Permᴰ.refl _))
      ]
    ]))
keep-permᴰ p (Permᴰ.trans q r) = Permᴰ.trans (keep-permᴰ p q) (keep-permᴰ p r)

pub length-permᴰ {ℓ} : {A : Type ℓ} {l m : List A} → Permᴰ l m → length l ≡ length m
length-permᴰ Permᴰ.nil = refl
length-permᴰ (Permᴰ.cons e q) = ap suc (length-permᴰ q)
length-permᴰ (Permᴰ.swap e f) = refl
length-permᴰ (Permᴰ.trans q r) = length-permᴰ q ∙ length-permᴰ r

-- Two tests, one after the other.
pub keep-&& {ℓ} :
    {A : Type ℓ} (p q : A → Bool) (l : List A) → keep (λ x. p x && q x) l ≡ keep q (keep p l)
keep-&& p q [] = refl
keep-&& p q (x ∷ l) = ground (arith, keep-&& p q l)
