-- ===== src/Agent/Dcgm.antt =====
-- agent/internal/collector/prometheus: the samples of a DCGM metric, by host, GPU and container. The
-- client of Prometheus is not part of the repository: what it returns is a parameter.
pub mod Laws
use cluster_monitor.Prelude.{
  ◌≡◌, ap, String, Bool, true, false, Option, none, some, List, [], ◌∷◌, ◌++◌,
}
use cluster_monitor.Prelude.Int.{ℤ, pos}
use cluster_monitor.Prelude.Order.{Ord, ord_by, string_ord, int_ord, pair_ord}
use cluster_monitor.Go.Result.{Result, ok, err, plain, map_result, for_each, ◌>>=◌}
use cluster_monitor.Go.Time.{Time}
use cluster_monitor.Go.Map.{GoMap, lookup, assign, or_nil}
use cluster_monitor.Go.Exec.{Exec}
use cluster_monitor.Go.Strconv.{parse_int}

abbrev pub gpu_util_metric : String
gpu_util_metric = "DCGM_FI_DEV_GPU_UTIL"

abbrev pub gpu_memory_used_metric : String
gpu_memory_used_metric = "DCGM_FI_DEV_FB_USED"

-- `model.Metric`: the labels of a stream
abbrev pub Metric : Type 0
Metric = GoMap String String

pub record DcgmMetricKey : Type 0 where
  pub hostname : String
  pub gpu : ℤ
  pub namespace : String
  pub pod : String
  pub container : String

abbrev pub key_parts : DcgmMetricKey → String × (ℤ × (String × (String × String)))
key_parts k = (k.hostname, (k.gpu, (k.namespace, (k.pod, k.container))))

pub key_parts-injective : (j k : DcgmMetricKey) → key_parts j ≡ key_parts k → j ≡ k
key_parts-injective j k e = λ i. record {
  hostname = (e i).0;
  gpu = (e i).1.0;
  namespace = (e i).1.1.0;
  pod = (e i).1.1.1.0;
  container = (e i).1.1.1.1;
}

instance abbrev pub key_ord : Ord DcgmMetricKey
key_ord = ord_by key_parts key_parts-injective

-- `m["exported_pod"]` and its like: a label that is missing reads as the empty text.
abbrev pub or_empty : Option String → String
or_empty none = ""
or_empty (some v) = v

abbrev pub required : Option String → Result String
required none = err plain
required (some v) = ok v

-- `NewDCGMMetricKey`
unfoldable pub new_dcgm_metric_key : Metric → Result DcgmMetricKey
unfolding lookup
new_dcgm_metric_key m = do
  hostname ← required (lookup "Hostname" m)
  gpu_str ← required (lookup "gpu" m)
  gpu ← parse_int gpu_str
  ok (record {
    hostname = hostname;
    gpu = gpu;
    namespace = or_empty (lookup "exported_namespace" m);
    pod = or_empty (lookup "exported_pod" m);
    container = or_empty (lookup "exported_container" m);
  })

-- `F` is float64.
module _ (F : Type 0) where
  -- `model.SamplePair`; the timestamp counts milliseconds.
  pub record SamplePair : Type 0 where
    pub timestamp : ℤ
    pub value : F

  -- `model.SampleStream`
  pub record SampleStream : Type 0 where
    pub metric : Metric
    pub samples : List SamplePair

  -- `model.Value`: whether its type is ValMatrix, and what its conversion to a matrix gives
  pub record Value : Type 0 where
    pub is_matrix : Bool
    pub as_matrix : Option (List SampleStream)

  abbrev pub DcgmMetricSamples : Type 0
  DcgmMetricSamples = GoMap DcgmMetricKey (List SamplePair)

-- `v1.Range`; the step counts seconds.
pub record Range : Type 0 where
  pub start : Time
  pub end : Time
  pub step : ℤ

-- The clock, and `QueryRange` of the API, over the same outside world as the client of Kubernetes.
pub record Prometheus (S F : Type 0) : Type 0 where
  pub now : S → Time × S
  pub query_range : String → Range → Exec S (Value F)

module _ {F : Type 0} where
  abbrev pub converted : Option (List (SampleStream F)) → Result (List (SampleStream F))
  converted none = err plain
  converted (some v) = ok v

  -- `queryRange`, behind the call
  unfoldable pub matrix_of : Value F → Result (List (SampleStream F))
  matrix_of val = elim val.is_matrix [ true ↦ converted val.as_matrix | false ↦ err plain ]

  -- the key of a stream, beside its samples
  abbrev pub keyed_stream : SampleStream F → Result (DcgmMetricKey × List (SamplePair F))
  keyed_stream stream = map_result (λ k. (k, stream.samples)) (new_dcgm_metric_key stream.metric)

  -- `m[k] = append(m[k], stream.Values...)`
  unfoldable pub append_samples :
      DcgmMetricKey × List (SamplePair F) → DcgmMetricSamples F → DcgmMetricSamples F
  unfolding lookup assign
  append_samples (k, vs) m = assign k (or_nil (lookup k m) ++ vs) m

  -- `for _, stream := range v`
  unfoldable pub merge_streams : List (SampleStream F) → Result (DcgmMetricSamples F)
  unfolding new_dcgm_metric_key append_samples
  merge_streams v = for_each keyed_stream append_samples [] v
