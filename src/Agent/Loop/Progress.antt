-- ===== src/Agent/Loop/Progress.antt =====
-- When the goroutines go on, and when they do not.

use cluster_monitor.Prelude.{◌≡◌, ◌⊎◌, inl, inr, refl, false, List, [], ◌∷◌, Bool-cases}
use cluster_monitor.Go.Result.{Result, ok, err, panics, out_of_rounds}
use cluster_monitor.Go.Exec.{Exec}
use cluster_monitor.Api.{Payload}
use cluster_monitor.Agent.Loop.{
  Calls, CollectorState, collecting, offering, waiting, SenderState, receiving, calling, System,
  request, Advance, Step, advance, cancel, drift, Reach, here, later,
}

module _ {W F : Type 0} where
  -- The states that no goroutine leaves by itself.
  pub data Stuck (s : System W F) : Type 0 where
    -- The collector offers a payload that nobody receives.
    blocked :
        {payload : Payload F} {cs : List (Exec W (Payload F))}
        → s.collector ≡ offering payload cs
        → s.sender ≡ SenderState.stopped
        → Stuck s
    ended : s.collector ≡ CollectorState.stopped → s.sender ≡ SenderState.stopped → Stuck s
    -- The sender waits for a payload that nobody collects, until the context is cancelled.
    idle :
        s.collector ≡ CollectorState.stopped → s.sender ≡ receiving → s.cancelled ≡ false → Stuck s

  module _ {calls : Calls W F} where
    Step-blocked :
        {payload : Payload F} {cs : List (Exec W (Payload F))} {s t : System W F}
        → Step calls s t
        → (s.collector ≡ offering payload cs) × (s.sender ≡ SenderState.stopped)
        → (t.collector ≡ offering payload cs) × (t.sender ≡ SenderState.stopped)
    Step-blocked (advance (Advance.collects e r)) (o, h) = cc
    Step-blocked (advance (Advance.fails e r)) (o, h) = cc
    Step-blocked (advance (Advance.finishes e)) (o, h) = cc
    Step-blocked (advance (Advance.ticks e)) (o, h) = cc
    Step-blocked (advance (Advance.collector_done e r)) (o, h) = cc
    Step-blocked (advance (Advance.hands_over e r)) (o, h) = cc
    Step-blocked (advance (Advance.sender_done e r)) (o, h) = cc
    Step-blocked (advance (Advance.sends e r)) (o, h) = cc
    Step-blocked (advance (Advance.send_fails e r)) (o, h) = cc
    Step-blocked cancel b = b
    Step-blocked (drift w) b = b

    -- Once the sender has returned while the collector offers a payload, the collector offers it in
    -- every later state: no cancellation of the context and no other step makes it return.
    pub Reach-blocked :
        {payload : Payload F} {cs : List (Exec W (Payload F))} {s t : System W F}
        → s.collector ≡ offering payload cs
        → s.sender ≡ SenderState.stopped
        → Reach calls s t
        → (t.collector ≡ offering payload cs) × (t.sender ≡ SenderState.stopped)
    Reach-blocked o h here = (o, h)
    Reach-blocked o h (later r st) = Step-blocked st (Reach-blocked o h r)

  module _ (calls : Calls W F) where
    -- A sender that is in a call goes on.
    Advance-calling :
        (s : System W F) (payload : Payload F)
        → s.sender ≡ calling payload
        → (t : System W F) × Advance calls s t
    Advance-calling s payload e = go ((calls.send (request payload) s.world).0) refl
      where
        go :
            (r : Result (Unit {0}))
            → (calls.send (request payload) s.world).0 ≡ r
            → (t : System W F) × Advance calls s t
        go (ok tt) k = (_, Advance.sends e k)
        go (err x) k = (_, Advance.send_fails e (λ d. cc))
        go panics k = (_, Advance.send_fails e (λ d. cc))
        go out_of_rounds k = (_, Advance.send_fails e (λ d. cc))

    Advance-collecting :
        (s : System W F) (c : Exec W (Payload F)) (cs : List (Exec W (Payload F)))
        → s.collector ≡ collecting (c ∷ cs)
        → (t : System W F) × Advance calls s t
    Advance-collecting s c cs e = go ((c s.world).0) refl
      where
        go : (r : Result (Payload F)) → (c s.world).0 ≡ r → (t : System W F) × Advance calls s t
        go (ok payload) k = (_, Advance.collects e k)
        go (err x) k = (_, Advance.fails e (λ p d. cc))
        go panics k = (_, Advance.fails e (λ p d. cc))
        go out_of_rounds k = (_, Advance.fails e (λ p d. cc))

    -- In every state one of the goroutines can go on, unless both have returned, or the sender has
    -- returned while the collector offers a payload, or the collector has returned while the sender
    -- receives and the context is not cancelled.
    pub Advance-or-Stuck : (s : System W F) → ((t : System W F) × Advance calls s t) ⊎ Stuck s
    Advance-or-Stuck s = go s.collector s.sender refl refl
      where
        go :
            (c : CollectorState W F) (x : SenderState W F)
            → s.collector ≡ c
            → s.sender ≡ x
            → ((t : System W F) × Advance calls s t) ⊎ Stuck s
        go (collecting (c ∷ cs)) x e f = inl (Advance-collecting s c cs e)
        go (collecting []) x e f = inl (_, Advance.finishes e)
        go waiting x e f = inl (_, Advance.ticks e)
        go (offering p cs) receiving e f = inl (_, Advance.hands_over e f)
        go (offering p cs) (calling q) e f = inl (Advance-calling s q f)
        go (offering p cs) SenderState.stopped e f = inr (Stuck.blocked e f)
        go CollectorState.stopped (calling q) e f = inl (Advance-calling s q f)
        go CollectorState.stopped SenderState.stopped e f = inr (Stuck.ended e f)
        go CollectorState.stopped receiving e f = elim (Bool-cases s.cancelled) [
          | inl c ↦ inl (_, Advance.sender_done f c)
          | inr c ↦ inr (Stuck.idle e f c)
        ]
