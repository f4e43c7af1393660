-- ===== src/Go/Strconv.antt =====
-- The package `strconv`: `ParseInt(s, 10, 64)`, and `Atoi`, which reads the same texts. Go walks the
-- bytes of a text; a character that is no decimal digit is refused as each of its bytes is.
use Prim.Native.Char.{code}
use Prim.Native.String.{[], ◌∷◌}
use cluster_monitor.Prelude.{
  ℕ, ◌+◌, ◌-◌, ◌*◌, ◌^◌, ◌≡◌, String, ◌&&◌, arith, ltb, leb, eqb, if◌then◌else◌, Bool-cases, inl,
  inr,
}
use cluster_monitor.Prelude.Int.{ℤ, pos, sub_ℕ, IsInt64}
use cluster_monitor.Go.Result.{Result, ok, err, plain, ◌>>=◌, bind_inversion}

-- `ParseUint(s, 10, 64)` behind the first digit; the number is checked against 2^64 at the end.
unfoldable pub parse_digits : ℕ → String → Result ℕ
parse_digits n [] = if ltb n (2 ^ 64) then ok n else err plain
parse_digits n (ch ∷ rest) =
    let c = code ch in
    if leb b'0' c && leb c b'9' then parse_digits (n * 10 + (c - b'0')) rest else err plain

unfoldable pub parse_uint : String → Result ℕ
unfolding parse_digits
parse_uint [] = err plain
parse_uint (ch ∷ rest) = parse_digits 0 (ch ∷ rest)

-- `int64(un)`, which is in range
abbrev pub positive : ℕ → Result ℤ
positive n = if ltb n (2 ^ 63) then ok (pos n) else err plain

abbrev pub negative : ℕ → Result ℤ
negative n = if leb n (2 ^ 63) then ok (sub_ℕ 0 n) else err plain

unfoldable pub parse_int : String → Result ℤ
unfolding parse_uint
parse_int [] = err plain
parse_int (ch ∷ rest) =
    let c = code ch in
    if eqb c b'+'
    then parse_uint rest >>= positive
    else if eqb c b'-'
    then parse_uint rest >>= negative
    else parse_uint (ch ∷ rest) >>= positive

positive_result : (r : Result ℕ) (z : ℤ) → (r >>= positive) ≡ ok z → IsInt64 z
positive_result r z h = let (n, _, k) = bind_inversion r positive h in ground arith

negative_result : (r : Result ℕ) (z : ℤ) → (r >>= negative) ≡ ok z → IsInt64 z
negative_result r z h = let (n, _, k) = bind_inversion r negative h in ground arith

-- A number that is accepted fits into an int64.
pub parse_int-IsInt64 : (s : String) (z : ℤ) → parse_int s ≡ ok z → IsInt64 z
unfolding parse_int
parse_int-IsInt64 [] z h = cc
parse_int-IsInt64 (ch ∷ rest) z h = elim (Bool-cases (eqb (code ch) b'+')) [
  | inl plus ↦ positive_result (parse_uint rest) z (rw plus at h)
  | inr other ↦ elim (Bool-cases (eqb (code ch) b'-')) [
    | inl minus ↦ negative_result (parse_uint rest) z (rw minus at (rw other at h))
    | inr digit ↦ positive_result (parse_uint (ch ∷ rest)) z (rw digit at (rw other at h))
  ]
]
