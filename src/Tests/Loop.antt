-- ===== src/Tests/Loop.antt =====
-- Runs of the two goroutines of the agent, with one collector.
use cluster_monitor.Prelude.{ℕ, ◌≡◌, ◌⊎◌, refl, true, false, [], ◌∷◌}
use cluster_monitor.Go.Result.{ok}
use cluster_monitor.Go.Exec.{Exec}
use cluster_monitor.Api.{Payload, cluster_snapshot}
use cluster_monitor.Agent.Loop.{
  Calls, offering, SenderState, calling, System, request, Advance, advance, cancel, drift, init,
  Reach, here, later,
}
use cluster_monitor.Agent.Loop.Fifo.{InOrder, init-Reach-InOrder}
use cluster_monitor.Agent.Loop.Progress.{Stuck, Reach-blocked, Advance-or-Stuck}
use cluster_monitor.Agent.Loop.Round.{Delivers, collecting-Delivers}

-- The world counts the calls; the payload is a snapshot without nodes.
abbrev payload : Payload ℕ
payload = cluster_snapshot (record { nodes = [] })

abbrev collect : Exec ℕ (Payload ℕ)
collect w = (ok payload, ℕ.suc w)

abbrev calls : Calls ℕ ℕ
calls = record { collectors = collect ∷ collect ∷ []; send = λ r w. (ok tt, ℕ.suc w) }

-- The first payload is handed over, and the collector has the second.
abbrev busy : System ℕ ℕ
busy = record {
  world = 2;
  cancelled = false;
  collector = offering payload [];
  sender = calling payload;
  collected = payload ∷ payload ∷ [];
  requests = [];
}

busy_reached : Reach calls (init calls 0) busy
busy_reached =
    later
      (later (later here (advance (Advance.collects refl refl)))
        (advance (Advance.hands_over refl refl)))
      (advance (Advance.collects refl refl))

init-Reach-InOrder_example : InOrder busy
init-Reach-InOrder_example = init-Reach-InOrder calls 0 busy busy_reached

-- The context is cancelled while the sender is in its call: the sender stops at its next `select`,
-- and the collector still offers the second payload.
abbrev abandoned : System ℕ ℕ
abandoned = record {
  world = 3;
  cancelled = true;
  collector = offering payload [];
  sender = SenderState.stopped;
  collected = payload ∷ payload ∷ [];
  requests = request payload ∷ [];
}

abandoned_reached : Reach calls (init calls 0) abandoned
abandoned_reached =
    later (later (later busy_reached (advance (Advance.sends refl refl))) cancel)
      (advance (Advance.sender_done refl refl))

Reach-blocked_example :
    ((record abandoned { world = 9 }).collector ≡ offering payload [])
    × ((record abandoned { world = 9 }).sender ≡ SenderState.stopped)
Reach-blocked_example =
    Reach-blocked {calls = calls} {s = abandoned} {t = record abandoned { world = 9 }} refl refl
      (later here (drift 9))

Advance-or-Stuck_example : ((t : System ℕ ℕ) × Advance calls busy t) ⊎ Stuck busy
Advance-or-Stuck_example = Advance-or-Stuck calls busy

collecting-Delivers_example :
    (t : System ℕ ℕ) × Delivers calls (collect ∷ collect ∷ []) (init calls 0) t
collecting-Delivers_example =
    collecting-Delivers calls (collect ∷ collect ∷ [])
      (λ w. (payload, refl), (λ w. (payload, refl), tt)) (λ r w. refl) (init calls 0) refl refl
