-- ===== src/Go/Exec.antt =====
-- Code that reads and changes the world outside of the process: the database and the clock. What a
-- call changed before it failed stays changed, so the state comes back beside an error too.
use cluster_monitor.Prelude.{◌≡◌, ◌≢◌, ◌⊎◌, inl, inr, refl, ap}
use cluster_monitor.Go.Result.{Code, Result, ok, err, panics, out_of_rounds, with_status}

abbrev pub Exec : Type 0 → Type 0 → Type 0
Exec S A = S → Result A × S

module _ {S A B : Type 0} where
  abbrev pub continue : Result A → (A → Exec S B) → Exec S B
  continue (ok a) f s = f a s
  continue (err e) f s = (err e, s)
  continue panics f s = (panics, s)
  continue out_of_rounds f s = (out_of_rounds, s)

  infixl 5 ◌>>=◌
  unfoldable pub ◌>>=◌ : Exec S A → (A → Exec S B) → Exec S B
  ◌>>=◌ m f s = let (r, s') = m s in continue r f s'

  -- Inversion of a bind that returned: both parts returned, one after the other.
  pub bind_inversion :
      (m : Exec S A) (f : A → Exec S B) (s : S) {b : B}
      → ((m >>= f) s).0 ≡ ok b
      → (a : A) × ((m s).0 ≡ ok a) × ((f a (m s).1).0 ≡ ok b) × (((m >>= f) s).1 ≡ (f a (m s).1).1)
  unfolding ◌>>=◌
  bind_inversion m f s {b} h = go (m s).0 refl h
    where
      go :
          (r : Result A)
          → (m s).0 ≡ r
          → (continue r f (m s).1).0 ≡ ok b
          → (a : A) × ((m s).0 ≡ ok a)
            × ((f a (m s).1).0 ≡ ok b)
            × (((m >>= f) s).1 ≡ (f a (m s).1).1)
      go (ok a) e k = (a, e, k, ap (λ r. (continue r f (m s).1).1) e)
      go (err x) e k = cc
      go panics e k = cc
      go out_of_rounds e k = cc

module _ {S A : Type 0} where
  -- A bind that did not succeed: its first part did not, and the state is the one that this left,
  -- or the first part did and the second did not.
  pub bind_failed :
      (m : Exec S A) (f : A → Exec S (Unit {0})) (s : S)
      → ((m >>= f) s).0 ≢ ok tt
      → (((a : A) → (m s).0 ≢ ok a) × (((m >>= f) s).1 ≡ (m s).1))
        ⊎ ((a : A) × ((m s).0 ≡ ok a)
            × ((f a (m s).1).0 ≢ ok tt)
            × (((m >>= f) s).1 ≡ (f a (m s).1).1))
  unfolding ◌>>=◌
  bind_failed m f s h = go (m s).0 refl h
    where
      go :
          (r : Result A)
          → (m s).0 ≡ r
          → (continue r f (m s).1).0 ≢ ok tt
          → (((a : A) → (m s).0 ≢ ok a) × ((continue (m s).0 f (m s).1).1 ≡ (m s).1))
            ⊎ ((a : A) × ((m s).0 ≡ ok a)
                × ((f a (m s).1).0 ≢ ok tt)
                × ((continue (m s).0 f (m s).1).1 ≡ (f a (m s).1).1))
      go (ok a) e k = inr (a, e, k, ap (λ r. (continue r f (m s).1).1) e)
      go (err x) e k = inl (λ a d. cc, ap (λ r. (continue r f (m s).1).1) e)
      go panics e k = inl (λ a d. cc, ap (λ r. (continue r f (m s).1).1) e)
      go out_of_rounds e k = inl (λ a d. cc, ap (λ r. (continue r f (m s).1).1) e)

module _ {S A B : Type 0} where
  -- Behind a part that returned, the rest goes on from the state that it left.
  pub bind_goes_on :
      (m : Exec S A) (f : A → Exec S B) (s : S) {a : A} → (m s).0 ≡ ok a → (m >>= f) s ≡ f a (m s).1
  unfolding ◌>>=◌
  bind_goes_on m f s e = ap (λ r. continue r f (m s).1) e

module _ {S : Type 0} where
  -- Behind a part that failed, nothing runs.
  pub bind_stopped :
      (m : Exec S (Unit {0})) (f : Unit {0} → Exec S (Unit {0})) (s : S)
      → (m s).0 ≢ ok tt
      → (m >>= f) s ≡ m s
  unfolding ◌>>=◌
  bind_stopped m f s h = go (m s).0 h
    where
      go : (r : Result (Unit {0})) → r ≢ ok tt → continue r f (m s).1 ≡ (r, (m s).1)
      go (ok a) e = absurd (e refl)
      go (err x) e = refl
      go panics e = refl
      go out_of_rounds e = refl

infixl 5 ◌>>◌
abbrev pub ◌>>◌ : {S B : Type 0} → Exec S (Unit {0}) → Exec S B → Exec S B
m >> k = m >>= λ _. k

module _ {S A : Type 0} where
  abbrev pub lift : Result A → Exec S A
  lift r s = (r, s)

  -- `if err != nil { return nil, status.Errorf(c, …, err) }`
  abbrev pub or_status : Code → Exec S A → Exec S A
  or_status c m s = (with_status c (m s).0, (m s).1)
