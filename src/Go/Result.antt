-- ===== src/Go/Result.antt =====
-- A Go call that returns `(value, error)`: it returns a value, returns an error, or panics.
use mathlib.Core.Path.{ap, fun_ext}
use cluster_monitor.Prelude.{
  sym, ◌∙◌, foldl, ◌≢◌, ◌⊎◌, inl, inr, arith, length, suc, ◌≡◌, refl, List, [], ◌∷◌,
}

-- The gRPC codes that the program uses (`google.golang.org/grpc/codes`).
pub data Code : Type 0 where
  unauthenticated invalid_argument not_found internal : Code

-- An `error`. The texts are not modelled, and so is what `%s` puts into them; what is kept is how
-- a caller can tell errors apart. `status c` is made by `status.Errorf`, `plain` by `fmt.Errorf`.
-- The others come from the libraries that the program calls.
pub data Error : Type 0 where
  status : Code → Error
  plain : Error
  codec_error : Error
  record_not_found : Error
  db_error : Error

-- `out_of_rounds` is not a behaviour of Go: a loop of the model was given too few rounds.
pub data Result {ℓ} (A : Type ℓ) : Type ℓ where
  ok : A → Result A
  err : Error → Result A
  panics : Result A
  out_of_rounds : Result A

infixl 5 ◌>>=◌ ◌>>◌
abbrev pub ◌>>=◌ {ℓ κ} : {A : Type ℓ} {B : Type κ} → Result A → (A → Result B) → Result B
ok a >>= f = f a
err e >>= f = err e
panics >>= f = panics
out_of_rounds >>= f = out_of_rounds

abbrev pub ◌>>◌ {ℓ} : {B : Type ℓ} → Result (Unit {0}) → Result B → Result B
m >> k = m >>= λ _. k

-- `if err != nil { return nil, status.Errorf(c, …, err) }`
abbrev pub with_status {ℓ} : {A : Type ℓ} → Code → Result A → Result A
with_status c (ok a) = ok a
with_status c (err e) = err (status c)
with_status c panics = panics
with_status c out_of_rounds = out_of_rounds

-- `if err != nil { return fmt.Errorf("…: %s", err) }`
abbrev pub or_plain {ℓ} : {A : Type ℓ} → Result A → Result A
or_plain (ok a) = ok a
or_plain (err e) = err plain
or_plain panics = panics
or_plain out_of_rounds = out_of_rounds

abbrev pub map_result {ℓ κ} : {A : Type ℓ} {B : Type κ} → (A → B) → Result A → Result B
map_result f (ok a) = ok (f a)
map_result f (err e) = err e
map_result f panics = panics
map_result f out_of_rounds = out_of_rounds

-- The loop `for _, x := range xs { y, err := f(x); if err != nil { return err }; ys = append(ys, y) }`
unfoldable pub traverse {ℓ κ} :
    {A : Type ℓ} {B : Type κ} → (A → Result B) → List A → Result (List B)
traverse f [] = ok []
traverse f (x ∷ xs) = do y ← f x; ys ← traverse f xs; ok (y ∷ ys)

pub bind_inversion {ℓ κ} :
    {A : Type ℓ} {B : Type κ} {b : B} (m : Result A) (k : A → Result B)
    → (m >>= k) ≡ ok b
    → (a : A) × (m ≡ ok a) × (k a ≡ ok b)
bind_inversion (ok a) f h = (a, refl, h)
bind_inversion (err e) f h = cc
bind_inversion panics f h = cc
bind_inversion out_of_rounds f h = cc

module _ {ℓ κ μ} {A : Type ℓ} {B : Type κ} {C : Type μ} where
  pub map-bind :
      (f : B → C) (m : Result A) (k : A → Result B)
      → map_result f (m >>= k) ≡ (m >>= λ a. map_result f (k a))
  map-bind f (ok a) k = refl
  map-bind f (err e) k = refl
  map-bind f panics k = refl
  map-bind f out_of_rounds k = refl

pub or_plain-ok {ℓ} : {A : Type ℓ} {a : A} (r : Result A) → or_plain r ≡ ok a → r ≡ ok a
or_plain-ok (ok b) h = h
or_plain-ok (err e) h = cc
or_plain-ok panics h = cc
or_plain-ok out_of_rounds h = cc

pub ok-injective {ℓ} : {A : Type ℓ} {a b : A} → ok a ≡ ok b → a ≡ b
ok-injective e = ground arith

-- There is one result for each element.
pub length-traverse {ℓ κ} :
    {A : Type ℓ} {B : Type κ} (f : A → Result B) (xs : List A) {ys : List B}
    → traverse f xs ≡ ok ys
    → length ys ≡ length xs
unfolding traverse
length-traverse f [] e = rw (← ok-injective e)
length-traverse f (x ∷ xs) e =
    let (y, _, e') = bind_inversion (f x) _ e in
    let (zs, done, e'') = bind_inversion (traverse f xs) _ e' in
    rw (← ok-injective e'') (ap suc (length-traverse f xs done))

module _ {ℓ κ μ} {A : Type ℓ} {B : Type κ} {C : Type μ} where
  pub bind_assoc :
      (m : Result A) (f : A → Result B) (g : B → Result C)
      → (m >>= f >>= g) ≡ (m >>= λ a. f a >>= g)
  bind_assoc (ok a) f g = refl
  bind_assoc (err e) f g = refl
  bind_assoc panics f g = refl
  bind_assoc out_of_rounds f g = refl

pub bind-ok {ℓ κ} :
    {A : Type ℓ} {B : Type κ} (m : Result A) (f : A → B) → (m >>= λ a. ok (f a)) ≡ map_result f m
bind-ok (ok a) f = refl
bind-ok (err e) f = refl
bind-ok panics f = refl
bind-ok out_of_rounds f = refl

module _ {A A' B C : Type 0} (p : A → B) (p' : A' → B) (k : A → Result C) (k' : A' → Result C) where
  -- Two computations that agree on a view of their results go on alike, if what follows agrees
  -- wherever the views do.
  pub bind_congr :
      (m : Result A) (m' : Result A')
      → map_result p m ≡ map_result p' m'
      → ((a : A) (a' : A') → m ≡ ok a → m' ≡ ok a' → p a ≡ p' a' → k a ≡ k' a')
      → (m >>= k) ≡ (m' >>= k')
  bind_congr (ok a) (ok a') h same = same a a' refl refl (ok-injective h)
  bind_congr (ok a) (err e') h same = cc
  bind_congr (ok a) panics h same = cc
  bind_congr (ok a) out_of_rounds h same = cc
  bind_congr (err e) (ok a') h same = cc
  bind_congr (err e) (err e') h same = ground arith
  bind_congr (err e) panics h same = cc
  bind_congr (err e) out_of_rounds h same = cc
  bind_congr panics (ok a') h same = cc
  bind_congr panics (err e') h same = cc
  bind_congr panics panics h same = refl
  bind_congr panics out_of_rounds h same = cc
  bind_congr out_of_rounds (ok a') h same = cc
  bind_congr out_of_rounds (err e') h same = cc
  bind_congr out_of_rounds panics h same = cc
  bind_congr out_of_rounds out_of_rounds h same = refl

module _ {A B C K : Type 0} (p : K → A → C) (q : K → B → C) (k : K) where
  -- Results that agree on each of several views agree on all of them at once.
  pub map_pointwise :
      (m : Result A) (r : Result B)
      → ((g : K) → map_result (p g) m ≡ map_result (q g) r)
      → map_result {B = K → C} (λ a g. p g a) m ≡ map_result {B = K → C} (λ b g. q g b) r
  map_pointwise (ok a) (ok a') h = ap ok (fun_ext (λ g. ok-injective (h g)))
  map_pointwise (ok a) (err e') h = cc (h k)
  map_pointwise (ok a) panics h = cc (h k)
  map_pointwise (ok a) out_of_rounds h = cc (h k)
  map_pointwise (err e) (ok a') h = cc (h k)
  map_pointwise (err e) (err e') h = ground (arith, h k)
  map_pointwise (err e) panics h = cc (h k)
  map_pointwise (err e) out_of_rounds h = cc (h k)
  map_pointwise panics (ok a') h = cc (h k)
  map_pointwise panics (err e') h = cc (h k)
  map_pointwise panics panics h = refl
  map_pointwise panics out_of_rounds h = cc (h k)
  map_pointwise out_of_rounds (ok a') h = cc (h k)
  map_pointwise out_of_rounds (err e') h = cc (h k)
  map_pointwise out_of_rounds panics h = cc (h k)
  map_pointwise out_of_rounds out_of_rounds h = refl

-- A statement succeeds or not.
pub succeeded : (r : Result (Unit {0})) → (r ≡ ok tt) ⊎ (r ≢ ok tt)
succeeded (ok tt) = inl refl
succeeded (err e) = inr (λ h. cc)
succeeded panics = inr (λ h. cc)
succeeded out_of_rounds = inr (λ h. cc)

-- The loop `for _, x := range xs { y, err := f(x); if err != nil { return err }; m = step(y, m) }`
unfoldable pub for_each {ℓ κ μ} :
    {A : Type ℓ} {B : Type κ} {M : Type μ} → (A → Result B) → (B → M → M) → M → List A → Result M
for_each f step m [] = ok m
for_each f step m (x ∷ xs) = do y ← f x; for_each f step (step y m) xs

module _ {ℓ κ μ} {A : Type ℓ} {B : Type κ} {M : Type μ} (f : A → Result B) (step : B → M → M) where
  for_each_cons :
      (y : B) (m : M) (r : Result (List B))
      → map_result (foldl (λ n z. step z n) (step y m)) r
        ≡ map_result (foldl (λ n z. step z n) m) (r >>= λ ys. ok (y ∷ ys))
  for_each_cons y m (ok ys) = refl
  for_each_cons y m (err e) = refl
  for_each_cons y m panics = refl
  for_each_cons y m out_of_rounds = refl

  -- All that can fail may be done first, and the state built from what it gives.
  pub for_each-eq-traverse :
      (m : M) (xs : List A)
      → for_each f step m xs ≡ map_result (foldl (λ n z. step z n) m) (traverse f xs)
  unfolding for_each traverse
  for_each-eq-traverse m [] = refl
  for_each-eq-traverse m (x ∷ xs) =
      ap (λ k. f x >>= k)
        (fun_ext λ y. for_each-eq-traverse (step y m) xs ∙ for_each_cons y m (traverse f xs))
      ∙ sym (map-bind (foldl (λ n z. step z n) m) (f x) (λ y. traverse f xs >>= λ ys. ok (y ∷ ys)))

pub map_result_twice :
    {A B C : Type 0} (f : B → C) (g : A → B) (r : Result A)
    → map_result f (map_result g r) ≡ map_result (λ a. f (g a)) r
map_result_twice f g (ok a) = refl
map_result_twice f g (err e) = refl
map_result_twice f g panics = refl
map_result_twice f g out_of_rounds = refl
