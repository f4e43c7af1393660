-- ===== src/Prelude/Int/Wrap.antt =====
-- Sums at a fixed width: wrapping around once, at the end, is enough.
use mathlib.Core.Path.{◌≡◌, sym, ap, ◌∙◌}
use native.Mathlib.Omega.{arith}
use cluster_monitor.Prelude.Int.{ℤ, ◌+ℤ◌, wrap, int32, int64, int_laws}

pub int32_absorb : (a b : ℤ) → int32 (int32 a +ℤ b) ≡ int32 (a +ℤ b)
unfolding wrap ◌+ℤ◌
int32_absorb a b = ground arith

pub int64_absorb : (a b : ℤ) → int64 (int64 a +ℤ b) ≡ int64 (a +ℤ b)
unfolding wrap ◌+ℤ◌
int64_absorb a b = ground arith

pub +ℤ_assoc : (a b c : ℤ) → a +ℤ b +ℤ c ≡ a +ℤ (b +ℤ c)
+ℤ_assoc a b c = omega int_laws

pub +ℤ_right_comm : (a b c : ℤ) → a +ℤ b +ℤ c ≡ a +ℤ c +ℤ b
+ℤ_right_comm a b c = omega int_laws

-- Two additions at 32 bits may be made in either order.
pub int32_right_comm : (a b c : ℤ) → int32 (int32 (a +ℤ b) +ℤ c) ≡ int32 (int32 (a +ℤ c) +ℤ b)
int32_right_comm a b c =
    int32_absorb (a +ℤ b) c ∙ ap int32 (+ℤ_right_comm a b c) ∙ sym (int32_absorb (a +ℤ c) b)

-- Two additions at 64 bits may be made in either order.
pub int64_right_comm : (a b c : ℤ) → int64 (int64 (a +ℤ b) +ℤ c) ≡ int64 (int64 (a +ℤ c) +ℤ b)
int64_right_comm a b c =
    int64_absorb (a +ℤ b) c ∙ ap int64 (+ℤ_right_comm a b c) ∙ sym (int64_absorb (a +ℤ c) b)
