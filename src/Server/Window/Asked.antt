-- ===== src/Server/Window/Asked.antt =====
-- A request with an end asks for a window that does not depend on the clock.
use cluster_monitor.Prelude.{
  ℕ, ◌+◌, ◌-◌, ◌*◌, ◌/◌, ◌^◌, ◌<◌, ◌≡◌, true, refl, sym, ap, ◌∙◌, inl, inr, Option, arith, ltb,
  Bool-cases,
}
use cluster_monitor.Prelude.Int.{pos, pos_part, ◌<ℤ◌}
use cluster_monitor.Go.Result.{ok, ok-injective}
use cluster_monitor.Go.Time.{Time}
use cluster_monitor.Api.{RequestFilter}
use cluster_monitor.Server.Window.{get_start_end_time, given, default_duration}
use cluster_monitor.Server.Window.Bounds.{
  IsClock, AsksForWindow, floor_hour, requested_start, window, get_start_end_time-eq-window,
}
use cluster_monitor.Server.Buckets.Laws.{instant}

-- The end, in seconds since the year 1, and the start and the number of the hours before it.
abbrev pub end_second : Option RequestFilter → ℕ
end_second filter = pos_part (given filter).end_timestamp + 62135596800

abbrev pub start_second : Option RequestFilter → ℕ
start_second filter =
    requested_start (given filter).start_timestamp 604800 (floor_hour (end_second filter))

abbrev pub first_hour : Option RequestFilter → ℕ
first_hour filter = floor_hour (start_second filter)

abbrev pub hours : Option RequestFilter → ℕ
hours filter = end_second filter / 3600 - start_second filter / 3600

-- The request has an end, which is early enough.
abbrev pub HasEnd : Option RequestFilter → Type 0
HasEnd filter = (pos 0 <ℤ (given filter).end_timestamp) × (end_second filter < 2 ^ 62)

window_hours :
    (s e : ℕ) (w : Time × Time)
    → window s e ≡ ok w
    → e < 2 ^ 62
    → (w ≡ (instant (floor_hour s), instant (floor_hour s + (e / 3600 - s / 3600) * 3600)))
      × (floor_hour s + (e / 3600 - s / 3600) * 3600 < 2 ^ 62)
window_hours s e w h small = elim (Bool-cases (ltb (floor_hour s) (floor_hour e))) [
  | inl before_end ↦
      let back : floor_hour s + (e / 3600 - s / 3600) * 3600 ≡ floor_hour e = ground arith in
      (
        sym (ok-injective (sym (rw before_end refl) ∙ h))
            ∙ ap (λ z. (instant (floor_hour s), instant z)) (sym back),
        ground arith,
      )
  | inr not_before ↦ cc (rw not_before at h)
]

-- What getStartEndTime returns for a request with an end, whatever the clock shows.
pub asked_hours :
    (filter : Option RequestFilter) (now : Time) (w : Time × Time)
    → IsClock now
    → AsksForWindow filter
    → HasEnd filter
    → get_start_end_time filter now default_duration ≡ ok w
    → (w ≡ (instant (first_hour filter), instant (first_hour filter + hours filter * 3600)))
      × (first_hour filter + hours filter * 3600 < 2 ^ 62)
asked_hours filter now w clock asks (positive, small) h =
    let given_end : ltb 0 (pos_part (given filter).end_timestamp) ≡ true = ground arith in
    let asked : window (start_second filter) (end_second filter) ≡ ok w =
      sym (
        get_start_end_time-eq-window filter now 604800 clock asks (omega arith) ∙ rw given_end refl)
      ∙ h in
    window_hours (start_second filter) (end_second filter) w asked small
