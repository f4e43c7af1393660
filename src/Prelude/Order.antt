-- ===== src/Prelude/Order.antt =====
-- Total orders on the keys of Go's maps: strings, integers and pairs.
use Prim.Native.Nat.{◌+◌, compare as compare_ℕ, Ordering}
use Prim.Native.Nat.Ordering.{lt, eq, gt}
use Prim.Native.String.{String, [], ◌∷◌, compare, then}
use Prim.Native.String.compare
use mathlib.Core.Path.{sym, ◌∙◌, ◌≡◌, refl}
use mathlib.Core.Logic.{◌↔◌}
use mathlib.Core.Bool.{false≢true, Bool, true, false}
use native.Mathlib.Omega.{arith}
use text.Mathlib.TextEquality.{path_by_compare}
use text.Mathlib.TextPositions.{compare_refl}
use mathlib.Core.HLevel.{hedberg}
use mathlib.Core.Logic.{inl, inr}
use cluster_monitor.Prelude.Tests.{Bool-cases}
use cluster_monitor.Prelude.Int.{ℤ, pos_part, neg_part}

-- The answer with the arguments exchanged.
abbrev pub flip : Ordering → Ordering
flip lt = gt
flip eq = eq
flip gt = lt

pub record Ord {ℓ} (K : Type ℓ) : Type ℓ where
  pub cmp : K → K → Ordering
  pub cmp_refl : (a : K) → cmp a a ≡ eq
  pub eq_of_cmp : (a b : K) → cmp a b ≡ eq → a ≡ b
  pub cmp_flip : (a b : K) → cmp b a ≡ flip (cmp a b)
  pub lt_trans : (a b c : K) → cmp a b ≡ lt → cmp b c ≡ lt → cmp a c ≡ lt

module _ {ℓ} {K : Type ℓ} ⦃o : Ord K⦄ where
  infix 50 ◌==◌ ◌≺◌
  abbrev pub ◌==◌ : K → K → Bool
  a == b = elim (o.cmp a b) [ eq ↦ true | _ ↦ false ]

  abbrev pub ◌≺◌ : K → K → Bool
  a ≺ b = elim (o.cmp a b) [ lt ↦ true | _ ↦ false ]

  pub ==_refl : (a : K) → (a == a) ≡ true
  ==_refl a = ground (arith, o.cmp_refl a)

  pub eq_of_== : (a b : K) → (a == b) ≡ true → a ≡ b
  eq_of_== a b h = o.eq_of_cmp a b (ground arith)

  pub ==_comm : (a b : K) → (a == b) ≡ (b == a)
  ==_comm a b = ground (arith, o.cmp_flip a b)

  pub ==_iff : (a b : K) → ((a == b) ≡ true) ↔ (a ≡ b)
  ==_iff a b = (eq_of_== a b, λ e. rw (← e) (==_refl a))

  pub Ord-discrete : Discrete K
  Ord-discrete a b = elim (Bool-cases (a == b)) [
    | inl e ↦ yes (eq_of_== a b e)
    | inr e ↦ no (λ p. false≢true (sym e ∙ (==_iff a b).1 p))
  ]

  pub Ord-set : IsSet K
  Ord-set = hedberg Ord-discrete

-- Go compares strings byte by byte, which for UTF-8 is by code points.
pub string_flip : (s t : String) → compare t s ≡ flip (compare s t)
string_flip [] [] = refl
string_flip [] (d ∷ t) = simp (compare.cons-nil, compare.nil-cons)
string_flip (c ∷ s) [] = simp (compare.cons-nil, compare.nil-cons)
string_flip (c ∷ s) (d ∷ t) = simp compare.cons-cons (ground (arith, string_flip s t))

pub string_lt_trans : (s t u : String) → compare s t ≡ lt → compare t u ≡ lt → compare s u ≡ lt
string_lt_trans [] [] u h k = k
string_lt_trans [] (d ∷ t) [] h k = ground (arith, compare.cons-nil d t)
string_lt_trans [] (d ∷ t) (e ∷ u) h k = compare.nil-cons e u
string_lt_trans (c ∷ s) [] u h k = ground (arith, compare.cons-nil c s)
string_lt_trans (c ∷ s) (d ∷ t) [] h k = ground (arith, compare.cons-nil d t)
string_lt_trans (c ∷ s) (d ∷ t) (e ∷ u) h k = ground (
  arith,
  compare.cons-cons c d s t,
  compare.cons-cons d e t u,
  compare.cons-cons c e s u,
  string_lt_trans s t u,
)

instance abbrev pub string_ord : Ord String
string_ord = record {
  cmp = compare;
  cmp_refl = compare_refl;
  eq_of_cmp = path_by_compare;
  cmp_flip = string_flip;
  lt_trans = string_lt_trans;
}

-- a ≤ b of integers, by the two parts of each.
abbrev compare_int : ℤ → ℤ → Ordering
compare_int a b = compare_ℕ (pos_part a + neg_part b) (pos_part b + neg_part a)

pub int_refl : (a : ℤ) → compare_int a a ≡ eq
int_refl a = ground arith

pub eq_of_int : (a b : ℤ) → compare_int a b ≡ eq → a ≡ b
eq_of_int a b h = ground arith

pub int_flip : (a b : ℤ) → compare_int b a ≡ flip (compare_int a b)
int_flip a b = ground arith

pub int_lt_trans : (a b c : ℤ) → compare_int a b ≡ lt → compare_int b c ≡ lt → compare_int a c ≡ lt
int_lt_trans a b c h k = ground arith

instance abbrev pub int_ord : Ord ℤ
int_ord = record {
  cmp = compare_int;
  cmp_refl = int_refl;
  eq_of_cmp = eq_of_int;
  cmp_flip = int_flip;
  lt_trans = int_lt_trans;
}

-- A key with two parts is compared by the first part, and by the second where the first is equal.
module _ {ℓ κ} {A : Type ℓ} {B : Type κ} ⦃a : Ord A⦄ ⦃b : Ord B⦄ where
  abbrev pub compare_pair : A × B → A × B → Ordering
  compare_pair x y = then (a.cmp x.0 y.0) (b.cmp x.1 y.1)

  pub pair_refl : (x : A × B) → compare_pair x x ≡ eq
  pair_refl x = ground (arith, a.cmp_refl x.0, b.cmp_refl x.1)

  pub eq_of_pair : (x y : A × B) → compare_pair x y ≡ eq → x ≡ y
  eq_of_pair x y h = ground (arith, a.eq_of_cmp x.0 y.0, b.eq_of_cmp x.1 y.1)

  pub pair_flip : (x y : A × B) → compare_pair y x ≡ flip (compare_pair x y)
  pair_flip x y = ground (arith, a.cmp_flip x.0 y.0, b.cmp_flip x.1 y.1)

  pub pair_lt_trans :
      (x y z : A × B) → compare_pair x y ≡ lt → compare_pair y z ≡ lt → compare_pair x z ≡ lt
  pair_lt_trans x y z h k = grind (
    arith,
    a.eq_of_cmp x.0 y.0,
    a.eq_of_cmp y.0 z.0,
    a.lt_trans x.0 y.0 z.0,
    b.lt_trans x.1 y.1 z.1,
  )

  instance abbrev pub pair_ord : Ord (A × B)
  pair_ord = record {
    cmp = compare_pair;
    cmp_refl = pair_refl;
    eq_of_cmp = eq_of_pair;
    cmp_flip = pair_flip;
    lt_trans = pair_lt_trans;
  }

-- Keys that are told apart by a part of them.
module _ {ℓ κ} {A : Type ℓ} {B : Type κ} ⦃b : Ord B⦄ (f : A → B)
    (injective : (x y : A) → f x ≡ f y → x ≡ y) where
  abbrev pub ord_by : Ord A
  ord_by = record {
    cmp = λ x y. b.cmp (f x) (f y);
    cmp_refl = λ x. b.cmp_refl (f x);
    eq_of_cmp = λ x y h. injective x y (b.eq_of_cmp (f x) (f y) h);
    cmp_flip = λ x y. b.cmp_flip (f x) (f y);
    lt_trans = λ x y z. b.lt_trans (f x) (f y) (f z);
  }

pub String-set : IsSet String
String-set = Ord-set
