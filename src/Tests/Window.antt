-- ===== src/Tests/Window.antt =====
-- Tests of `getStartEndTime` and of the buckets.
use cluster_monitor.Prelude.{ℕ, ◌≡◌, refl, none, some, List, [], ◌∷◌, arith, length}
use cluster_monitor.Prelude.Int.{pos, wrap}
use cluster_monitor.Prelude.Order.{int_ord}
use cluster_monitor.Go.Result.{Result, ok, traverse}
use cluster_monitor.Go.Time.{add, unix, truncate}
use cluster_monitor.Go.Map.{or_nil, lookup, assign}
use cluster_monitor.Api.{RequestFilter}
use cluster_monitor.Store.Rows.{ClusterSnapshotHistory}
use cluster_monitor.Server.Window.{get_start_end_time, end_of, start_of}
use cluster_monitor.Server.Window.Bounds.{
  window, floor_hour, requested_end, requested_start, get_start_end_time-eq-window,
}
use cluster_monitor.Server.Buckets.{fill, datapoints}
use cluster_monitor.Server.Buckets.Laws.{
  instant, hours_from, hour_datapoint, in_hour, datapoints-fill, fill-eq-in_hour,
}
use cluster_monitor.Tests.Samples.{moment, history}

-- From 2024-01-01 00:10 to 02:20.
abbrev morning : RequestFilter
morning = record { start_timestamp = pos 1704067800; end_timestamp = pos 1704075600 }

-- The default: a week up to the current hour, where the minute is below 30.
default_runs : get_start_end_time none (moment 604800) (pos 604800) ≡ ok (moment 0, moment 604800)
unfolding get_start_end_time end_of start_of truncate
default_runs = refl

get_start_end_time-eq-window_example : get_start_end_time (some morning) (moment 0) (pos 604800) ≡ (
    let e = requested_end morning.end_timestamp (moment 0) in
    window (requested_start morning.start_timestamp 604800 (floor_hour e)) e)
get_start_end_time-eq-window_example =
    get_start_end_time-eq-window (some morning) (moment 0) 604800 (omega arith, omega arith)
      (omega arith, omega arith, omega arith, omega arith) (omega arith)

abbrev three : List ClusterSnapshotHistory
three = history "c1" 2 10 ∷ history "c1" 4 3700 ∷ history "c2" 1 20 ∷ []

-- The number of the histories.
abbrev count : List ClusterSnapshotHistory → Result (List ℕ)
count hs = ok (length hs ∷ [])

datapoints_run :
    datapoints count (fill (λ h. h.history_created_at) [] three) (moment 0) (moment 10800)
    ≡ ok (
        record { timestamp = pos 1704067200; values = 2 ∷ [] }
        ∷ record { timestamp = pos 1704070800; values = 1 ∷ [] }
        ∷ record { timestamp = pos 1704074400; values = 0 ∷ [] }
        ∷ [])
unfolding datapoints fill add unix lookup wrap assign truncate
datapoints_run = refl

datapoints-fill_example :
    datapoints count
      (fill (λ h. h.history_created_at) [] three)
      (instant 63839664000)
      (instant 63839671200)
    ≡ traverse (hour_datapoint (λ h. h.history_created_at) count three) (hours_from 2 63839664000)
datapoints-fill_example =
    datapoints-fill (λ h. h.history_created_at) count three 2 63839664000 (omega arith)

fill-eq-in_hour_example :
    or_nil (lookup (pos 1704067200) (fill (λ h. h.history_created_at) [] three))
    ≡ in_hour (λ h. h.history_created_at) (pos 1704067200) three
fill-eq-in_hour_example = fill-eq-in_hour (λ h. h.history_created_at) (pos 1704067200) three
