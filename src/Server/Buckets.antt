-- ===== src/Server/Buckets.antt =====
-- The part that `ListClusterSnapshots` and `ListGpuUsages` share: histories are put into one bucket
-- for each hour in a single pass, and the hours of the window become one datapoint each.
pub mod Laws
use cluster_monitor.Prelude.{
  ℕ, zero, suc, ◌+◌, ◌/◌, Option, none, some, List, [], ◌∷◌, ◌++◌, if◌then◌else◌,
}
use cluster_monitor.Prelude.Int.{ℤ, pos, pos_part, ◌-ℤ◌}
use cluster_monitor.Prelude.Order.{int_ord}
use cluster_monitor.Go.Result.{Result, ok, out_of_rounds, internal, with_status, ◌>>=◌}
use cluster_monitor.Go.Time.{Time, unix, add, truncate, before}
use cluster_monitor.Go.Map.{GoMap, lookup, assign, or_nil}
use cluster_monitor.Api.{Datapoint}
use cluster_monitor.Server.Window.{default_interval}

module _ {H : Type 0} (created_at : H → Time) where
  -- `h.HistoryCreatedAt.Truncate(defaultInterval)`, `.Unix()`
  abbrev pub hour_of : H → ℤ
  hour_of h = unix (truncate 3600 (created_at h))

  -- `for _, h := range hs { intervalBuckets[t.Unix()] = append(intervalBuckets[t.Unix()], h) }`
  unfoldable pub fill : GoMap ℤ (List H) → List H → GoMap ℤ (List H)
  fill m [] = m
  fill m (h ∷ hs) = fill (assign (hour_of h) (or_nil (lookup (hour_of h) m) ++ h ∷ []) m) hs

-- enough rounds for each hour between the two instants, and one to leave the loop
abbrev pub rounds : Time → Time → ℕ
rounds start_time end_time = pos_part (end_time.sec -ℤ start_time.sec) / 3600 + 2

module _ {H V : Type 0} (calculate : List H → Result (List V)) (buckets : GoMap ℤ (List H)) where
  -- the loop over the intervals, for a number of rounds
  unfoldable pub datapoints_from : ℕ → Time → Time → Result (List (Datapoint V))
  datapoints_from zero t end_time = out_of_rounds
  datapoints_from (suc n) t end_time =
      let rest = datapoints_from n (add t default_interval) end_time in
      if before t end_time
      then (do
        vs ← with_status internal (calculate (or_nil (lookup (unix t) buckets)))
        dps ← rest
        ok (record { timestamp = unix t; values = vs } ∷ dps))
      else ok []

  unfoldable pub datapoints : Time → Time → Result (List (Datapoint V))
  unfolding ◌-ℤ◌ datapoints_from
  datapoints start_time end_time = datapoints_from (rounds start_time end_time) start_time end_time
