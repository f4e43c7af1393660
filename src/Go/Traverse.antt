-- ===== src/Go/Traverse.antt =====
-- Loops that may fail, over lists in another order and over parts of them.
use mathlib.Core.List.{Permᴰ}
use mathlib.Core.List.Permᴰ
use cluster_monitor.Prelude.{
  ◌≡◌, refl, sym, ap, ◌∙◌, inl, inr, Bool, List, [], ◌∷◌, keep, Bool-cases,
}
use cluster_monitor.Go.Result.{
  Result, ok, err, panics, out_of_rounds, map_result, traverse, bind_inversion, ok-injective,
}

module _ {A B : Type 0} (f : A → Result B) where
  traverse_cons :
      (x : A) (xs : List A) (y : B) (ys : List B)
      → f x ≡ ok y
      → traverse f xs ≡ ok ys
      → traverse f (x ∷ xs) ≡ ok (y ∷ ys)
  unfolding traverse
  traverse_cons x xs y ys h k = rw h (rw k refl)

  pub traverse_inversion :
      (x : A) (xs : List A) (us : List B)
      → traverse f (x ∷ xs) ≡ ok us
      → (y : B) × (ys : List B) × (f x ≡ ok y) × (traverse f xs ≡ ok ys) × (us ≡ y ∷ ys)
  unfolding traverse
  traverse_inversion x xs us h =
      let (y, e, h') = bind_inversion (f x) _ h in
      let (ys, k, h'') = bind_inversion (traverse f xs) _ h' in
      (y, ys, e, k, sym (ok-injective h''))

  -- If the loop over one list returns, so does the loop over the same list in another order, with
  -- the same results in another order.
  pub traverse-permᴰ :
      (xs ys : List A) (us : List B)
      → Permᴰ xs ys
      → traverse f xs ≡ ok us
      → (vs : List B) × (traverse f ys ≡ ok vs) × Permᴰ us vs
  traverse-permᴰ xs ys us Permᴰ.nil h = (us, h, Permᴰ.refl us)
  traverse-permᴰ xs ys us (Permᴰ.cons {a = a} {b = b} {l₁ = l} {l₂ = m} e p) h =
      let (y, us', k, t, split) = traverse_inversion a l us h in
      let (vs, t', q) = traverse-permᴰ l m us' p t in
      (y ∷ vs, traverse_cons b m y vs (ap f (sym e) ∙ k) t', rw split (Permᴰ.cons refl q))
  traverse-permᴰ xs ys us (Permᴰ.swap {a = a} {b = b} {a' = a'} {b' = b'} {l = l} e f') h =
      let (y, us', k, t, split) = traverse_inversion a (b ∷ l) us h in
      let (z, us'', k', t', split') = traverse_inversion b l us' t in
      (
        z ∷ y ∷ us'',
        traverse_cons a' (b' ∷ l) z (y ∷ us'') (ap f (sym f') ∙ k')
            (traverse_cons b' l y us'' (ap f (sym e) ∙ k) t'),
        rw split (rw split' (Permᴰ.swap refl refl)),
      )
  traverse-permᴰ xs ys us (Permᴰ.trans {l₂ = zs} p q) h =
      let (vs, t, r) = traverse-permᴰ xs zs us p h in
      let (ws, t', r') = traverse-permᴰ zs ys vs q t in (ws, t', Permᴰ.trans r r')

  -- If the loop over a list returns, so does the loop over a part of it.
  pub traverse-keep :
      (p : A → Bool) (xs : List A) (us : List B)
      → traverse f xs ≡ ok us
      → (vs : List B) × (traverse f (keep p xs) ≡ ok vs)
  traverse-keep p [] us h = (us, h)
  traverse-keep p (x ∷ xs) us h =
      let (y, us', k, t, split) = traverse_inversion x xs us h in
      let (vs, t') = traverse-keep p xs us' t in
      elim (Bool-cases (p x)) [
        | inl yes_ ↦ rw yes_ (y ∷ vs, traverse_cons x (keep p xs) y vs k t')
        | inr no_ ↦ rw no_ (vs, t')
      ]

pub map_result_inversion :
    {A B : Type 0} (f : A → B) (r : Result A) {b : B}
    → map_result f r ≡ ok b
    → (a : A) × (r ≡ ok a) × (f a ≡ b)
map_result_inversion f (ok a) h = (a, refl, ok-injective h)
map_result_inversion f (err e) h = cc
map_result_inversion f panics h = cc
map_result_inversion f out_of_rounds h = cc
