-- ===== src/Server/Window/Bounds.antt =====
-- What `getStartEndTime` returns: hour boundaries around the request, or InvalidArgument.
use cluster_monitor.Prelude.{
  ℕ, zero, suc, ◌+◌, ◌-◌, ◌*◌, ◌/◌, ◌^◌, ◌≤◌, ◌<◌, ◌≡◌, ◌⊎◌, Option, arith, if◌then◌else◌, ltb,
}
use cluster_monitor.Prelude.Int.{ℤ, pos, negsuc, pos_part, ◌+ℤ◌, ◌≤ℤ◌, ◌<ℤ◌, wrap, sub_ℕ}
use cluster_monitor.Go.Result.{Result, ok, err, status, invalid_argument}
use cluster_monitor.Go.Time.{Time, from_unix, add, truncate}
use cluster_monitor.Api.{RequestFilter}
use cluster_monitor.Server.Window.{get_start_end_time, given, end_of, start_of}

-- Timestamps that `time.Unix` can hold: the year of the last one is above 292 billion.
abbrev pub IsTimestamp : ℤ → Type 0
IsTimestamp t = pos_part t + 62135596800 < 2 ^ 63

-- A clock that shows a second after the first fortnight of the year 1, with room to add to it.
abbrev pub IsClock : Time → Type 0
IsClock t = (1209600 ≤ pos_part t.sec) × (pos_part t.sec < 2 ^ 62)

abbrev pub on_hour : ℕ → Time
on_hour s = record { sec = pos (s / 3600 * 3600); nsec = 0 }

truncate-on_hour : (t : Time) (s : ℕ) → t.sec ≡ pos s → s < 2 ^ 63 → truncate 3600 t ≡ on_hour s
unfolding truncate
truncate-on_hour t s e h = rw e (ground arith)

from_unix-sec :
    (t : ℤ) → IsTimestamp t → pos 0 <ℤ t → (from_unix t).sec ≡ pos (pos_part t + 62135596800)
unfolding from_unix ◌+ℤ◌ wrap
from_unix-sec t h p = ground arith

-- The instant that the request asks to end at, in seconds since the year 1.
abbrev pub requested_end : ℤ → Time → ℕ
requested_end t now =
    if ltb 0 (pos_part t) then pos_part t + 62135596800 else pos_part now.sec + 1800

-- The instant that it asks to start at: by default, `duration` before the end.
abbrev pub requested_start : ℤ → ℕ → ℕ → ℕ
requested_start t duration end =
    if ltb 0 (pos_part t) then pos_part t + 62135596800 else end - duration

abbrev pub floor_hour : ℕ → ℕ
floor_hour s = s / 3600 * 3600

module _ (now : Time) (clock : IsClock now) where
  end_of_lem :
      (t : ℤ)
      → IsTimestamp t
      → pos 0 ≤ℤ t
      → (e : Time) × (end_of t now ≡ ok e) × (e.sec ≡ pos (requested_end t now))
  unfolding end_of add
  end_of_lem (pos zero) h p = (add now (pos 1800), ground arith, ground arith)
  end_of_lem (pos (suc t)) h p = (
    from_unix (pos (suc t)),
    ground arith,
    rw (from_unix-sec (pos (suc t)) h (omega arith)) (ground arith),
  )
  end_of_lem (negsuc t) h p = absurd (omega arith)

  start_of_lem :
      (t : ℤ) (duration : ℕ) (e : ℕ)
      → IsTimestamp t
      → pos 0 ≤ℤ t
      → duration ≤ e
      → e < 2 ^ 63
      → (s : Time) × (start_of t (pos duration) (record { sec = pos e; nsec = 0 }) ≡ ok s)
        × (s.sec ≡ pos (requested_start t duration e))
  unfolding start_of add
  start_of_lem (pos zero) d e h p q r =
      (add (record { sec = pos e; nsec = 0 }) (sub_ℕ 0 d), ground arith, ground arith)
  start_of_lem (pos (suc t)) d e h p q r = (
    from_unix (pos (suc t)),
    ground arith,
    rw (from_unix-sec (pos (suc t)) h (omega arith)) (ground arith),
  )
  start_of_lem (negsuc t) d e h p q r = absurd (omega arith)

-- The start and the end, from the instants that the request asks for.
abbrev pub window : ℕ → ℕ → Result (Time × Time)
window s e =
    if ltb (floor_hour s) (floor_hour e)
    then ok (on_hour s, on_hour e)
    else err (status invalid_argument)

abbrev pub AsksForWindow : Option RequestFilter → Type 0
AsksForWindow filter =
    IsTimestamp (given filter).start_timestamp
    × (pos 0 ≤ℤ (given filter).start_timestamp)
    × IsTimestamp (given filter).end_timestamp
    × (pos 0 ≤ℤ (given filter).end_timestamp)

-- For a request whose timestamps are not negative and below 2^63 - 62135596800, a clock that shows
-- an instant between the first fortnight of the year 1 and 2^62 seconds since that year, and a
-- duration of at most 1206000 seconds, getStartEndTime returns the end asked for, by default half
-- an hour after the clock, and the start asked for, by default the duration before the rounded end,
-- each rounded down to the hour, and fails with InvalidArgument exactly when the rounded start does
-- not lie before the rounded end.
pub get_start_end_time-eq-window :
    (filter : Option RequestFilter) (now : Time) (duration : ℕ)
    → IsClock now
    → AsksForWindow filter
    → duration ≤ 1206000
    → get_start_end_time filter now (pos duration) ≡ (
        let e = requested_end (given filter).end_timestamp now in
        window (requested_start (given filter).start_timestamp duration (floor_hour e)) e)
unfolding get_start_end_time
get_start_end_time-eq-window filter now d clock (hs, ps, he, pe) hd =
    let f = given filter in
    let e = requested_end f.end_timestamp now in
    let (t, et, st) = end_of_lem now clock f.end_timestamp he pe in
    let (u, eu, su) =
      start_of_lem now clock f.start_timestamp d (floor_hour e) hs ps (ground arith)
        (ground arith) in
    rw et (
      rw (truncate-on_hour t e st (ground arith))
        (rw eu (rw (truncate-on_hour u _ su (ground arith)) (ground arith))))

-- getStartEndTime refuses a negative start or end timestamp with InvalidArgument.
pub get_start_end_time-negative :
    (filter : Option RequestFilter) (now : Time) (duration : ℤ)
    → ((given filter).start_timestamp <ℤ pos 0) ⊎ ((given filter).end_timestamp <ℤ pos 0)
    → get_start_end_time filter now duration ≡ err (status invalid_argument)
unfolding get_start_end_time end_of start_of
get_start_end_time-negative filter now duration h = ground arith
