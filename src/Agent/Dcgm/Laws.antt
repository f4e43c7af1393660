-- ===== src/Agent/Dcgm/Laws.antt =====
-- The samples of a key, against a description that has no map.
use mathlib.Core.Path.{fun_ext}
use mathlib.Core.List.{append_assoc, append-nil}
use cluster_monitor.Prelude.{
  ◌≡◌, refl, sym, ap, ◌∙◌, inl, inr, List, [], ◌∷◌, ◌++◌, foldl, if◌then◌else◌, Bool-cases,
}
use cluster_monitor.Prelude.Int.{IsInt64}
use cluster_monitor.Prelude.Order.{◌==◌, eq_of_==, string_ord}
use cluster_monitor.Go.Result.{
  ok, map_result, map_result_twice, traverse, bind_inversion, ok-injective, for_each-eq-traverse,
}
use cluster_monitor.Go.Map.{or_nil, lookup, lookup-assign}
use cluster_monitor.Go.Strconv.{parse_int, parse_int-IsInt64}
use cluster_monitor.Agent.Dcgm.{
  Metric, DcgmMetricKey, key_ord, required, new_dcgm_metric_key, SamplePair, SampleStream,
  DcgmMetricSamples, keyed_stream, append_samples, merge_streams,
}

-- The index of a GPU fits into an int.
pub new_dcgm_metric_key-IsInt64 :
    (m : Metric) (k : DcgmMetricKey) → new_dcgm_metric_key m ≡ ok k → IsInt64 k.gpu
unfolding new_dcgm_metric_key
new_dcgm_metric_key-IsInt64 m k h =
    let (hostname, _, h1) = bind_inversion (required (lookup "Hostname" m)) _ h in
    let (gpu_str, _, h2) = bind_inversion (required (lookup "gpu" m)) _ h1 in
    let (gpu, read, h3) = bind_inversion (parse_int gpu_str) _ h2 in
    rw (← ok-injective h3) (parse_int-IsInt64 gpu_str gpu read)

module _ {F : Type 0} where
  -- The samples of all streams with the key `k`, in order.
  abbrev pub samples_of :
      DcgmMetricKey → List (DcgmMetricKey × List (SamplePair F)) → List (SamplePair F)
  samples_of k [] = []
  samples_of k ((j, vs) ∷ ks) = if j == k then vs ++ samples_of k ks else samples_of k ks

  merged-lookup :
      (k : DcgmMetricKey) (m : DcgmMetricSamples F)
      (ks : List (DcgmMetricKey × List (SamplePair F)))
      → or_nil (lookup k (foldl (λ n z. append_samples z n) m ks))
        ≡ or_nil (lookup k m) ++ samples_of k ks
  unfolding append_samples
  merged-lookup k m [] = sym (append-nil (or_nil (lookup k m)))
  merged-lookup k m ((j, vs) ∷ ks) =
      merged-lookup k (append_samples (j, vs) m) ks
      ∙ rw lookup-assign (elim (Bool-cases (j == k)) [
        | inl same ↦ rw same (
            ap (λ i. (or_nil (lookup i m) ++ vs) ++ samples_of k ks) (eq_of_== j k same)
            ∙ append_assoc (or_nil (lookup k m)) vs (samples_of k ks))
        | inr differ ↦ rw differ refl
      ])

  -- QueryDCGMMetric holds for each key the samples of all streams with this key, one after the
  -- other, and fails just where the labels of some stream make no key.
  pub merge_streams-eq-samples_of :
      (k : DcgmMetricKey) (v : List (SampleStream F))
      → map_result (λ m. or_nil (lookup k m)) (merge_streams v)
        ≡ map_result (samples_of k) (traverse keyed_stream v)
  unfolding merge_streams lookup
  merge_streams-eq-samples_of k v =
      ap (map_result (λ m. or_nil (lookup k m)))
        (for_each-eq-traverse keyed_stream append_samples [] v)
      ∙ map_result_twice (λ m. or_nil (lookup k m)) (foldl (λ n z. append_samples z n) [])
          (traverse keyed_stream v)
      ∙ ap (λ f. map_result f (traverse keyed_stream v)) (fun_ext (merged-lookup k []))
