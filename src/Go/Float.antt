-- ===== src/Go/Float.antt =====
-- Go's float32 and float64. The language's floating-point numbers have no counterpart among the
-- numbers of the model, so their operations are a parameter of it.
use cluster_monitor.Prelude.Int.{ℤ}

pub record Float32 : Type 1 where
  pub Carrier : Type 0
  pub zero : Carrier
  -- `a + b`, `a / b`, `max(a, b)`
  pub plus : Carrier → Carrier → Carrier
  pub divide : Carrier → Carrier → Carrier
  pub maximum : Carrier → Carrier → Carrier
  -- `float32(n)`
  pub of_int : ℤ → Carrier

-- float64, with the conversions to float32 and int64
pub record Float64 (F : Type 0) : Type 1 where
  pub Carrier : Type 0
  pub zero : Carrier
  -- `a + b`, `a / b`, `a * b`, `max(a, b)`
  pub plus : Carrier → Carrier → Carrier
  pub divide : Carrier → Carrier → Carrier
  pub multiply : Carrier → Carrier → Carrier
  pub maximum : Carrier → Carrier → Carrier
  -- `float64(n)`, which the constants 100.0 and 1024 are too
  pub of_int : ℤ → Carrier
  -- `float32(x)`, `int64(x)`
  pub to_float32 : Carrier → F
  pub to_int64 : Carrier → ℤ
