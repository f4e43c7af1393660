-- ===== src/Agent/Loop.antt =====
-- The two goroutines of the agent: `Start` of agent/internal/collector/collector.go and `Start` of
-- agent/internal/sender/sender.go, with the channel between them, which has no buffer. They
-- interleave in any order, with each other and with the world outside. A call of a client is one
-- step. A panic, which in Go ends the process, ends its goroutine here.
pub mod Fifo
pub mod Progress
pub mod Round
use cluster_monitor.Prelude.{◌≡◌, ◌≢◌, Bool, true, false, List, [], ◌∷◌, ◌++◌}
use cluster_monitor.Go.Result.{ok}
use cluster_monitor.Go.Exec.{Exec}
use cluster_monitor.Api.{Payload, SendClusterTelemetryRequest}

module _ (W F : Type 0) where
  -- What a sender and the collectors do: `collect` of each collector, in order, and
  -- `SendClusterTelemetry` of the client.
  pub record Calls : Type 0 where
    pub collectors : List (Exec W (Payload F))
    pub send : SendClusterTelemetryRequest F → Exec W (Unit {0})

  pub data CollectorState : Type 0 where
    -- in the loop of `collect`, with the collectors that are left
    collecting : List (Exec W (Payload F)) → CollectorState
    -- at `c.payloadCh <- paylod`
    offering : Payload F → List (Exec W (Payload F)) → CollectorState
    -- at the `select` of `Start`
    waiting : CollectorState
    -- `Start` has returned.
    stopped : CollectorState

  pub data SenderState : Type 0 where
    -- at the `select` of `Start`
    receiving : SenderState
    -- in the call of the client
    calling : Payload F → SenderState
    -- `Start` has returned.
    stopped : SenderState

  -- Beside the two goroutines: whether their context is cancelled, the payloads collected up to
  -- here, and the requests whose calls have returned.
  pub record System : Type 0 where
    pub world : W
    pub cancelled : Bool
    pub collector : CollectorState
    pub sender : SenderState
    pub collected : List (Payload F)
    pub requests : List (SendClusterTelemetryRequest F)

abbrev pub request : {F : Type 0} → Payload F → SendClusterTelemetryRequest F
request payload = record { payloads = payload ∷ [] }

module _ {W F : Type 0} where
  -- A step of one of the goroutines, or of both where one hands over to the other.
  pub data Advance (calls : Calls W F) (s : System W F) : System W F → Type 0 where
    collects :
        {c : Exec W (Payload F)} {cs : List (Exec W (Payload F))} {payload : Payload F}
        → s.collector ≡ collecting (c ∷ cs)
        → (c s.world).0 ≡ ok payload
        → Advance calls s (record s {
          world = (c s.world).1;
          collector = offering payload cs;
          collected = s.collected ++ payload ∷ [];
        })
    fails :
        {c : Exec W (Payload F)} {cs : List (Exec W (Payload F))}
        → s.collector ≡ collecting (c ∷ cs)
        → ((payload : Payload F) → (c s.world).0 ≢ ok payload)
        → Advance calls s (record s { world = (c s.world).1; collector = CollectorState.stopped })
    -- The loop of `collect` is through: back to the `select`.
    finishes : s.collector ≡ collecting [] → Advance calls s (record s { collector = waiting })
    -- `case <-tick.C`
    ticks :
        s.collector ≡ waiting
        → Advance calls s (record s { collector = collecting calls.collectors })
    -- `case <-ctx.Done()` of the collector
    collector_done :
        s.collector ≡ waiting
        → s.cancelled ≡ true
        → Advance calls s (record s { collector = CollectorState.stopped })
    -- The channel has no buffer: its two ends meet. The sender then calls the client.
    hands_over :
        {payload : Payload F} {cs : List (Exec W (Payload F))}
        → s.collector ≡ offering payload cs
        → s.sender ≡ receiving
        → Advance calls s (record s { collector = collecting cs; sender = calling payload })
    -- `case <-ctx.Done()` of the sender
    sender_done :
        s.sender ≡ receiving
        → s.cancelled ≡ true
        → Advance calls s (record s { sender = SenderState.stopped })
    sends :
        {payload : Payload F}
        → s.sender ≡ calling payload
        → (calls.send (request payload) s.world).0 ≡ ok tt
        → Advance calls s (record s {
          world = (calls.send (request payload) s.world).1;
          sender = receiving;
          requests = s.requests ++ request payload ∷ [];
        })
    send_fails :
        {payload : Payload F}
        → s.sender ≡ calling payload
        → (calls.send (request payload) s.world).0 ≢ ok tt
        → Advance calls s (record s {
          world = (calls.send (request payload) s.world).1;
          sender = SenderState.stopped;
          requests = s.requests ++ request payload ∷ [];
        })

  -- A step of the system: also the manager may cancel the context, and the world may change.
  pub data Step (calls : Calls W F) (s : System W F) : System W F → Type 0 where
    advance : {t : System W F} → Advance calls s t → Step calls s t
    cancel : Step calls s (record s { cancelled = true })
    drift : (w : W) → Step calls s (record s { world = w })

  -- Both goroutines start; the collector first collects once.
  abbrev pub init : Calls W F → W → System W F
  init calls w = record {
    world = w;
    cancelled = false;
    collector = collecting calls.collectors;
    sender = receiving;
    collected = [];
    requests = [];
  }

  -- What is reached from a state.
  pub data Reach (calls : Calls W F) (s : System W F) : System W F → Type 0 where
    here : Reach calls s s
    later : {t u : System W F} → Reach calls s t → Step calls t u → Reach calls s u
