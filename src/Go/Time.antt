-- ===== src/Go/Time.antt =====
-- The package `time`: instants and the operations on them that the program uses.
use cluster_monitor.Prelude.{ℕ, ◌-◌, ◌^◌, Bool, ◌&&◌, ◌||◌, ltb, if◌then◌else◌}
use cluster_monitor.Prelude.Int.{ℤ, pos, negsuc, ◌+ℤ◌, ◌-ℤ◌, ltb_ℤ, floor_mod, int64}
use cluster_monitor.Prelude.Order.{◌==◌, int_ord}

-- `sec` counts the seconds since the start of the year 1 in an int64, `nsec` the nanoseconds.
-- The monotonic reading of `time.Now` is not kept: `Truncate` drops it before any comparison.
pub record Time : Type 0 where
  pub sec : ℤ
  pub nsec : ℕ

-- The seconds from the start of the year 1 to that of 1970.
abbrev pub unix_to_internal : ℤ
unix_to_internal = pos 62135596800

-- `time.Unix(t, 0)`
unfoldable pub from_unix : ℤ → Time
from_unix t = record { sec = int64 (t +ℤ unix_to_internal); nsec = 0 }

-- `t.Unix()`
unfoldable pub unix : Time → ℤ
unix t = int64 (t.sec -ℤ unix_to_internal)

-- A sum of seconds stays at the ends of the range.
unfoldable pub saturate : ℤ → ℤ
saturate s =
    if ltb_ℤ s (pos (2 ^ 63))
    then (if ltb_ℤ s (negsuc (2 ^ 63 - 1)) then negsuc (2 ^ 63 - 2) else s)
    else pos (2 ^ 63 - 1)

-- `t.Add(d)` for a duration of whole seconds
unfoldable pub add : Time → ℤ → Time
unfolding saturate ◌+ℤ◌
add t d = record t { sec = saturate (t.sec +ℤ d) }

-- `t.Truncate(d)` for a positive duration of whole seconds: down to a multiple of `d` since year 1
unfoldable pub truncate : ℕ → Time → Time
unfolding saturate floor_mod ◌-ℤ◌
truncate d t = record { sec = saturate (t.sec -ℤ pos (floor_mod t.sec d)); nsec = 0 }

-- `t.Before(u)`
abbrev pub before : Time → Time → Bool
before t u = ltb_ℤ t.sec u.sec || (t.sec == u.sec && ltb t.nsec u.nsec)
