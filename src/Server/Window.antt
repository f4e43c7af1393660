-- ===== src/Server/Window.antt =====
-- `getStartEndTime` of server/internal/server/cluster_snapshot.go
pub mod Bounds
pub mod Asked
use cluster_monitor.Prelude.{Option, none, some, if◌then◌else◌}
use cluster_monitor.Prelude.Int.{ℤ, pos, pos_part, neg_part, sub_ℕ, ltb_ℤ}
use cluster_monitor.Prelude.Order.{◌==◌, int_ord}
use cluster_monitor.Go.Result.{Result, ok, err, status, invalid_argument, ◌>>=◌}
use cluster_monitor.Go.Time.{Time, from_unix, add, truncate, before}
use cluster_monitor.Api.{RequestFilter}

-- `defaultInterval`, in seconds
abbrev pub default_interval : ℤ
default_interval = pos 3600

-- `defaultDuration`, in seconds
abbrev pub default_duration : ℤ
default_duration = pos 604800

-- `filter`, or a new one where it is nil
abbrev pub given : Option RequestFilter → RequestFilter
given none = record { start_timestamp = pos 0; end_timestamp = pos 0 }
given (some f) = f

-- the first `switch`
unfoldable pub end_of : ℤ → Time → Result Time
unfolding from_unix add
end_of t now =
    if ltb_ℤ (pos 0) t
    then ok (from_unix t)
    else if t == pos 0
    then ok (add now (pos 1800))
    else err (status invalid_argument)

-- the second `switch`, which takes the truncated end
unfoldable pub start_of : ℤ → ℤ → Time → Result Time
unfolding from_unix add
start_of t duration end_time =
    if ltb_ℤ (pos 0) t
    then ok (from_unix t)
    else if t == pos 0
    then ok (add end_time (sub_ℕ (neg_part duration) (pos_part duration)))
    else err (status invalid_argument)

unfoldable pub get_start_end_time : Option RequestFilter → Time → ℤ → Result (Time × Time)
get_start_end_time filter now duration = do
  let f = given filter
  end_raw ← end_of f.end_timestamp now
  let end_time = truncate 3600 end_raw
  start_raw ← start_of f.start_timestamp duration end_time
  let start_time = truncate 3600 start_raw
  if before start_time end_time then ok (start_time, end_time) else err (status invalid_argument)
