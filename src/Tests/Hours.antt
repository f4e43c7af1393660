-- ===== src/Tests/Hours.antt =====
-- The response of `ListGpuUsages` as a whole.
use cluster_monitor.Prelude.{◌≡◌, [], ◌∷◌, arith}
use cluster_monitor.Go.Result.{ok, ◌>>=◌}
use cluster_monitor.Server.Buckets.Laws.{instant, hours_from}
use cluster_monitor.Server.Usages.{get_all_cluster_nodes}
use cluster_monitor.Server.Usages.Answer.{answer}
use cluster_monitor.Server.Usages.Hours.{in_hours, usage_answer-eq-in_hours}
use cluster_monitor.Tests.Samples.{names}
use cluster_monitor.Tests.Usages.{float, unmarshal, message}

usage_answer-eq-in_hours_example :
    answer float unmarshal
      (instant 63839664000, instant 63839671200)
      (message ∷ message ∷ [], names)
    ≡ (do
      cns ← get_all_cluster_nodes float unmarshal names (message ∷ message ∷ [])
      dps ← in_hours float unmarshal names (message ∷ message ∷ []) (hours_from 2 63839664000) cns
      ok (record { datapoints = dps }))
usage_answer-eq-in_hours_example =
    usage_answer-eq-in_hours float unmarshal names (message ∷ message ∷ []) 2 63839664000
      (omega arith) (omega arith)
