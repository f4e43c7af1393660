-- ===== src/Agent/Telemetry/Samples.antt =====
-- The samples of a host at an instant, against a description that has no map.
use mathlib.Core.List.{append_assoc, append-nil}
use cluster_monitor.Prelude.{
  ◌≡◌, refl, sym, ap, ◌∙◌, inl, inr, String, not, ◌&&◌, List, [], ◌∷◌, ◌++◌, if◌then◌else◌,
  Bool-cases,
}
use cluster_monitor.Prelude.Int.{ℤ}
use cluster_monitor.Prelude.Order.{◌==◌, eq_of_==, string_ord, int_ord}
use cluster_monitor.Go.Map.{GoMap, or_nil, lookup, assign, lookup-assign}
use cluster_monitor.Agent.Dcgm.{DcgmMetricKey, SamplePair, DcgmMetricSamples}
use cluster_monitor.Agent.Telemetry.{Samples, or_fresh, add_samples, add_key, samples_by_host}

module _ {F : Type 0} where
  -- The values at an instant, in order.
  abbrev pub values_at : ℤ → List (SamplePair F) → List F
  values_at t [] = []
  values_at t (s ∷ ss) = if s.timestamp == t then s.value ∷ values_at t ss else values_at t ss

  -- The samples of a host: those of its keys that name a pod.
  abbrev pub host_values : String → ℤ → DcgmMetricSamples F → List F
  host_values h t [] = []
  host_values h t ((k, ss) ∷ rest) =
      if not (k.pod == "") && k.hostname == h
      then values_at t ss ++ host_values h t rest
      else host_values h t rest

  -- What the maps hold for a host at an instant.
  abbrev pub value_list : String → ℤ → GoMap String (Samples F) → List F
  value_list h t m = or_nil (lookup t (or_fresh (lookup h m)))

  add_samples-lookup :
      (t : ℤ) (m : Samples F) (ss : List (SamplePair F))
      → or_nil (lookup t (add_samples m ss)) ≡ or_nil (lookup t m) ++ values_at t ss
  unfolding add_samples
  add_samples-lookup t m [] = sym (append-nil (or_nil (lookup t m)))
  add_samples-lookup t m (s ∷ ss) =
      add_samples-lookup t (assign s.timestamp (or_nil (lookup s.timestamp m) ++ s.value ∷ []) m) ss
      ∙ rw lookup-assign (elim (Bool-cases (s.timestamp == t)) [
        | inl same ↦ rw same (
            ap (λ i. (or_nil (lookup i m) ++ s.value ∷ []) ++ values_at t ss)
              (eq_of_== s.timestamp t same)
            ∙ append_assoc (or_nil (lookup t m)) (s.value ∷ []) (values_at t ss))
        | inr differ ↦ rw differ refl
      ])

  -- One key more.
  add_key-value_list :
      (h : String) (t : ℤ) (k : DcgmMetricKey) (ss : List (SamplePair F))
      (m : GoMap String (Samples F))
      → value_list h t (add_key k ss m) ≡ value_list h t m ++ host_values h t ((k, ss) ∷ [])
  unfolding add_key
  add_key-value_list h t k ss m = elim (Bool-cases (k.pod == "")) [
    | inl host ↦ rw host (sym (append-nil (value_list h t m)))
    | inr pod ↦ rw pod (
        rw lookup-assign (elim (Bool-cases (k.hostname == h)) [
          | inl same ↦ rw same (
              add_samples-lookup t (or_fresh (lookup k.hostname m)) ss
              ∙ ap (λ i. value_list i t m ++ values_at t ss) (eq_of_== k.hostname h same)
              ∙ ap (λ l. value_list h t m ++ l) (sym (append-nil (values_at t ss))))
          | inr differ ↦ rw differ (sym (append-nil (value_list h t m)))
        ]))
  ]

  host_values_cons :
      (h : String) (t : ℤ) (k : DcgmMetricKey) (ss : List (SamplePair F))
      (rest : DcgmMetricSamples F)
      → host_values h t ((k, ss) ∷ []) ++ host_values h t rest ≡ host_values h t ((k, ss) ∷ rest)
  host_values_cons h t k ss rest = elim (Bool-cases (not (k.pod == "") && k.hostname == h)) [
    | inl mine ↦ rw mine (append_assoc (values_at t ss) [] (host_values h t rest))
    | inr other ↦ rw other refl
  ]

  samples_by_host-value_list :
      (h : String) (t : ℤ) (m : GoMap String (Samples F)) (samples : DcgmMetricSamples F)
      → value_list h t (samples_by_host m samples) ≡ value_list h t m ++ host_values h t samples
  unfolding samples_by_host
  samples_by_host-value_list h t m [] = sym (append-nil (value_list h t m))
  samples_by_host-value_list h t m ((k, ss) ∷ rest) =
      samples_by_host-value_list h t (add_key k ss m) rest
      ∙ ap (λ l. l ++ host_values h t rest) (add_key-value_list h t k ss m)
      ∙ append_assoc (value_list h t m) (host_values h t ((k, ss) ∷ [])) (host_values h t rest)
      ∙ ap (λ l. value_list h t m ++ l) (host_values_cons h t k ss rest)

  -- The maps of buildSampleMapByHost hold for each host and instant just the values that the keys
  -- of the host that name a pod have at that instant, in order.
  pub samples_by_host-eq-host_values :
      (h : String) (t : ℤ) (samples : DcgmMetricSamples F)
      → value_list h t (samples_by_host [] samples) ≡ host_values h t samples
  unfolding lookup
  samples_by_host-eq-host_values h t samples = samples_by_host-value_list h t [] samples
