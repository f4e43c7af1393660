-- ===== src/Tests/Pipeline.antt =====
-- An agent with two collectors that reports to the server between the requests of others.
use cluster_monitor.Prelude.{ℕ, ◌≡◌, ◌≢◌, ◌+◌, refl, ap, ◌∙◌, inr, true, false, some, [], ◌∷◌}
use cluster_monitor.Prelude.Order.{◌==◌, string_ord}
use cluster_monitor.Go.Result.{ok, ok-injective}
use cluster_monitor.Go.Exec.{Exec, ◌>>=◌}
use cluster_monitor.Go.Float.{Float32}
use cluster_monitor.Api.{Payload, cluster_snapshot, gpu_telemetry}
use cluster_monitor.Agent.Loop.{
  Calls, System, collecting, receiving, offering, Advance, init, request,
}
use cluster_monitor.Store.{
  create_or_update_cluster_snapshot, create_cluster_snapshot_history, create_gpu_telemetry_history,
}
use cluster_monitor.Store.Database.{Db, Tables}
use cluster_monitor.Server.Auth.{ClusterInfo, extract_cluster_info}
use cluster_monitor.Server.Telemetry.{send_cluster_telemetry}
use cluster_monitor.Pipeline.{Link, IsLink, calls_of, reports, Run, start, advances, turns}
use cluster_monitor.Pipeline.Exact.{Once, Run-Once}
use cluster_monitor.Pipeline.Round.{RoundStored, init-RoundStored}
use cluster_monitor.Tests.Samples.{moment, tables, tables-IsIndexed}
use cluster_monitor.Tests.Memory.{memory, memory-IsLawful, memory-IsUp}
use cluster_monitor.Tests.Telemetry.{codec, codec-IsLawful, agent, agent_extracted}

abbrev pub float : Float32
float = record {
  Carrier = ℕ;
  zero = 0;
  plus = ◌+◌;
  divide = λ a b. a;
  maximum = λ a b. a + b;
  of_int = λ n. 0;
}

abbrev pub db : Db
db = memory (moment 0)

-- A connection that never fails.
abbrev pub link : Link ℕ Tables
link handler (a, s) = let (r, s') = handler s in (r, (a, s'))

pub link-IsLink : IsLink link
link-IsLink = record { succeeds = λ handler a s e. (e, refl); fails = λ handler a s e. inr refl }

-- The world of the agent counts the calls.
abbrev pub collect_snapshot : Exec ℕ (Payload ℕ)
collect_snapshot w = (ok (cluster_snapshot (record { nodes = [] })), ℕ.suc w)

abbrev pub collect_telemetry : Exec ℕ (Payload ℕ)
collect_telemetry w = (ok (gpu_telemetry (record { nodes = [] })), ℕ.suc w)

abbrev pub calls : Calls (ℕ × Tables) ℕ
calls = calls_of db float codec (collect_snapshot ∷ collect_telemetry ∷ []) link true (some agent)

abbrev pub neighbour : ClusterInfo
neighbour = record { cluster_id = "c1"; cluster_name = "east"; tenant_id = "t1" }

abbrev pub neighbour_sent : Tables
neighbour_sent =
    (send_cluster_telemetry db codec true (some neighbour)
      (request (cluster_snapshot (record { nodes = [] }))) tables).1

abbrev pub both_sent : Tables
both_sent =
    (send_cluster_telemetry db codec true (some agent)
      (request (cluster_snapshot (record { nodes = [] }))) neighbour_sent).1

-- The snapshot is stored, behind the one of the other cluster, and the telemetry is offered.
abbrev pub reached : System (ℕ × Tables) ℕ
reached = record {
  world = (2, both_sent);
  cancelled = false;
  collector = offering (gpu_telemetry (record { nodes = [] })) [];
  sender = receiving;
  collected = cluster_snapshot (record { nodes = [] }) ∷ gpu_telemetry (record { nodes = [] }) ∷ [];
  requests = request (cluster_snapshot (record { nodes = [] })) ∷ [];
}

another :
    (i : ClusterInfo) → extract_cluster_info true (some neighbour) ≡ ok i → i.cluster_id ≢ "c3"
unfolding extract_cluster_info
another i e = λ z.
    let same : false ≡ true = ap (λ k. k == "c3") (ap (λ j. j.cluster_id) (ok-injective e) ∙ z) in
    cc

run : Run db float codec true agent calls (init calls (0, tables)) reached
unfolding send_cluster_telemetry ◌>>=◌ extract_cluster_info create_or_update_cluster_snapshot
    create_cluster_snapshot_history
run =
    advances
      (advances
        (turns
          (advances (advances start (Advance.collects refl refl)) (Advance.hands_over refl refl))
          (reports (some neighbour) (request (cluster_snapshot (record { nodes = [] }))) another))
        (Advance.sends refl refl))
      (Advance.collects refl refl)

Run-Once_example :
    Once db
      (memory-IsLawful (moment 0))
      float
      codec
      codec-IsLawful
      (collect_snapshot ∷ collect_telemetry ∷ [])
      link
      link-IsLink
      true
      (some agent)
      agent
      (0, tables)
      reached
Run-Once_example =
    Run-Once db (memory-IsLawful (moment 0)) float codec codec-IsLawful
      (collect_snapshot ∷ collect_telemetry ∷ []) link link-IsLink true (some agent) agent
      (0, tables) reached agent_extracted tables-IsIndexed run

abbrev pub all_sent : Tables
all_sent =
    (send_cluster_telemetry db codec true (some agent)
      (request (gpu_telemetry (record { nodes = [] }))) both_sent).1

-- The telemetry is stored too.
abbrev pub round_done : System (ℕ × Tables) ℕ
round_done = record {
  world = (2, all_sent);
  cancelled = false;
  collector = collecting [];
  sender = receiving;
  collected = cluster_snapshot (record { nodes = [] }) ∷ gpu_telemetry (record { nodes = [] }) ∷ [];
  requests =
      request (cluster_snapshot (record { nodes = [] }))
      ∷ request (gpu_telemetry (record { nodes = [] }))
      ∷ [];
}

pub run_on : Run db float codec true agent calls (init calls (0, tables)) round_done
unfolding send_cluster_telemetry ◌>>=◌ extract_cluster_info create_or_update_cluster_snapshot
    create_cluster_snapshot_history create_gpu_telemetry_history
run_on = advances (advances run (Advance.hands_over refl refl)) (Advance.sends refl refl)

init-RoundStored_example :
    (t : System (ℕ × Tables) ℕ) × RoundStored db
      (memory-IsLawful (moment 0))
      (memory-IsUp (moment 0))
      float
      codec
      codec-IsLawful
      (collect_snapshot ∷ collect_telemetry ∷ [])
      link
      link-IsLink
      (λ handler a s h. h)
      true
      (some agent)
      agent
      agent_extracted
      (0, tables)
      t
init-RoundStored_example =
    init-RoundStored db (memory-IsLawful (moment 0)) (memory-IsUp (moment 0)) float codec
      codec-IsLawful (collect_snapshot ∷ collect_telemetry ∷ []) link link-IsLink
      (λ handler a s h. h) true (some agent) agent agent_extracted (0, tables) tables-IsIndexed
      (
        λ a. (cluster_snapshot (record { nodes = [] }), refl, ([], refl)),
        (λ a. (gpu_telemetry (record { nodes = [] }), refl, ([], refl)), tt),
      )
