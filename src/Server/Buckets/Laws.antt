-- ===== src/Server/Buckets/Laws.antt =====
-- The buckets and the loop over the hours, against a description with neither: for each hour of
-- the window, the histories of that hour.
use mathlib.Core.Path.{fun_ext}
use cluster_monitor.Prelude.{
  ℕ, zero, suc, ◌+◌, ◌*◌, ◌^◌, ◌<◌, ◌≡◌, sym, ap, ◌∙◌, List, [], ◌∷◌, ◌++◌, true, keep, arith,
  Bool-cases, inl, inr,
}
use mathlib.Core.List.{append_assoc, append-nil}
use cluster_monitor.Prelude.Int.{ℤ, pos, ◌+ℤ◌}
use cluster_monitor.Prelude.Order.{◌==◌, eq_of_==, int_ord}
use cluster_monitor.Go.Result.{Result, ok, internal, with_status, traverse, bind_assoc, ◌>>=◌}
use cluster_monitor.Go.Time.{Time, unix, add, before, saturate}
use cluster_monitor.Go.Map.{or_nil, GoMap, lookup, lookup-assign}
use cluster_monitor.Api.{Datapoint}
use cluster_monitor.Server.Window.{default_interval}
use cluster_monitor.Server.Buckets.{hour_of, fill, datapoints_from, datapoints, rounds}

module _ {H : Type 0} (created_at : H → Time) where
  -- The histories of the hour that begins at `k`.
  abbrev pub in_hour : ℤ → List H → List H
  in_hour k = keep (λ h. hour_of created_at h == k)

  fill-lookup :
      (k : ℤ) (hs : List H) (m : GoMap ℤ (List H))
      → or_nil (lookup k (fill created_at m hs)) ≡ or_nil (lookup k m) ++ in_hour k hs
  unfolding fill
  fill-lookup k [] m = sym (append-nil (or_nil (lookup k m)))
  fill-lookup k (h ∷ hs) m =
      fill-lookup k hs _
      ∙ rw lookup-assign (elim (Bool-cases (hour_of created_at h == k)) [
        | inl same ↦ rw same (
            ap (λ j. (or_nil (lookup j m) ++ h ∷ []) ++ in_hour k hs)
              (eq_of_== (hour_of created_at h) k same)
            ∙ append_assoc (or_nil (lookup k m)) (h ∷ []) (in_hour k hs))
        | inr differ ↦ rw differ
      ])

  -- The bucket of an hour holds the histories of that hour, in the order in which they came.
  pub fill-eq-in_hour :
      (k : ℤ) (hs : List H) → or_nil (lookup k (fill created_at [] hs)) ≡ in_hour k hs
  unfolding lookup
  fill-eq-in_hour k hs = fill-lookup k hs []

-- The instant `s` seconds after the start of the year 1.
abbrev pub instant : ℕ → Time
instant s = record { sec = pos s; nsec = 0 }

-- `n` hours, from the second `s` on.
abbrev pub hours_from : ℕ → ℕ → List ℕ
hours_from zero s = []
hours_from (suc n) s = s ∷ hours_from n (s + 3600)

module _ {H V : Type 0} (calculate : List H → Result (List V)) (buckets : GoMap ℤ (List H)) where
  -- The datapoint of the hour that begins at the second `s`.
  abbrev pub datapoint_at : ℕ → Result (Datapoint V)
  datapoint_at s = do
    vs ← with_status internal (calculate (or_nil (lookup (unix (instant s)) buckets)))
    ok (record { timestamp = unix (instant s); values = vs })

  add_hour : (s : ℕ) → s < 2 ^ 62 → add (instant s) default_interval ≡ instant (s + 3600)
  unfolding add saturate ◌+ℤ◌
  add_hour s h = ground arith

  datapoints_from-eq-traverse :
      (fuel n s : ℕ)
      → n < fuel
      → s + n * 3600 < 2 ^ 62
      → datapoints_from calculate buckets fuel (instant s) (instant (s + n * 3600))
        ≡ traverse datapoint_at (hours_from n s)
  unfolding datapoints_from traverse
  datapoints_from-eq-traverse zero n s h b = absurd (omega arith)
  datapoints_from-eq-traverse (suc fuel) zero s h b = ground arith
  datapoints_from-eq-traverse (suc fuel) (suc n) s h b =
      let later : before (instant s) (instant (s + suc n * 3600)) ≡ true = ground arith in
      let shift : s + suc n * 3600 ≡ s + 3600 + n * 3600 = omega arith in
      let rest = datapoints_from-eq-traverse fuel n (s + 3600) (omega arith) (omega arith) in
      rw later (
        rw (add_hour s (omega arith)) (
          rw shift (
            rw rest (
              sym (
                bind_assoc
                  (with_status internal (calculate (or_nil (lookup (unix (instant s)) buckets))))
                  (λ vs. ok (record { timestamp = unix (instant s); values = vs }))
                  (λ dp.
                    traverse datapoint_at (hours_from n (s + 3600)) >>= λ dps. ok (dp ∷ dps)))))))

  -- For a window of whole hours below 2^62 seconds, the loop over the intervals has rounds enough:
  -- it ends by its own test, after one datapoint for each hour of the window, in order.
  pub datapoints-eq-traverse :
      (n s : ℕ)
      → s + n * 3600 < 2 ^ 62
      → datapoints calculate buckets (instant s) (instant (s + n * 3600))
        ≡ traverse datapoint_at (hours_from n s)
  unfolding datapoints
  datapoints-eq-traverse n s h =
      datapoints_from-eq-traverse (rounds (instant s) (instant (s + n * 3600))) n s (ground arith) h

module _ {H V : Type 0} (created_at : H → Time) (calculate : List H → Result (List V))
    (hs : List H) where
  -- The datapoint of an hour, from the histories of that hour.
  abbrev pub hour_datapoint : ℕ → Result (Datapoint V)
  hour_datapoint s = do
    vs ← with_status internal (calculate (in_hour created_at (unix (instant s)) hs))
    ok (record { timestamp = unix (instant s); values = vs })

  -- For a window of whole hours below 2^62 seconds, the buckets and the loop over the intervals
  -- give one datapoint for each hour of the window, in order, each with the values of just the
  -- histories of that hour, and fail where the values of one hour fail.
  pub datapoints-fill :
      (n s : ℕ)
      → s + n * 3600 < 2 ^ 62
      → datapoints calculate (fill created_at [] hs) (instant s) (instant (s + n * 3600))
        ≡ traverse hour_datapoint (hours_from n s)
  datapoints-fill n s h =
      datapoints-eq-traverse calculate (fill created_at [] hs) n s h
      ∙ ap (λ f. traverse f (hours_from n s))
          (fun_ext λ t. rw (fill-eq-in_hour created_at (unix (instant t)) hs))
