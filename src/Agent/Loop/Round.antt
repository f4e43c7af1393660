-- ===== src/Agent/Loop/Round.antt =====
-- A round of the collector, where no call fails.
use mathlib.Core.List.{append_assoc, append-nil}
use cluster_monitor.Prelude.{◌≡◌, refl, sym, ◌∙◌, List, [], ◌∷◌, ◌++◌, map}
use cluster_monitor.Go.Result.{ok}
use cluster_monitor.Go.Exec.{Exec}
use cluster_monitor.Api.{Payload, SendClusterTelemetryRequest}
use cluster_monitor.Agent.Loop.{
  Calls, collecting, waiting, receiving, System, request, Advance, advance, Reach, here, later,
}

module _ {W F : Type 0} where
  -- No call of these collectors fails, whatever the world is.
  abbrev pub AllReturn : List (Exec W (Payload F)) → Type 0
  AllReturn [] = Unit {0}
  AllReturn (c ∷ cs) = ((w : W) → (p : Payload F) × ((c w).0 ≡ ok p)) × AllReturn cs

  Reach-trans :
      {calls : Calls W F} {s t u : System W F} → Reach calls s t → Reach calls t u → Reach calls s u
  Reach-trans r here = r
  Reach-trans r (later q st) = later (Reach-trans r q) st

  module _ (calls : Calls W F) where
    -- The collectors return the payloads one after the other from the world `w`, where each payload
    -- is sent before the next collector is called, and leave the world `u`.
    abbrev pub Returned : List (Exec W (Payload F)) → W → List (Payload F) → W → Type 0
    Returned [] w [] u = w ≡ u
    Returned [] w (p ∷ ps) u = ⊥
    Returned (c ∷ cs) w [] u = ⊥
    Returned (c ∷ cs) w (p ∷ ps) u =
        ((c w).0 ≡ ok p) × Returned cs (calls.send (request p) (c w).1).1 ps u

    -- Between two states of an open channel, the collectors returned the payloads, all of which
    -- were collected and requested, and the collector has come to its `select`.
    pub record Delivers (cs : List (Exec W (Payload F))) (s t : System W F) : Type 0 where
      pub payloads : List (Payload F)
      pub reach : Reach calls s t
      pub collector_waits : t.collector ≡ waiting
      pub sender_receives : t.sender ≡ receiving
      pub returned : Returned cs s.world payloads t.world
      pub collected : t.collected ≡ s.collected ++ payloads
      pub requested : t.requests ≡ s.requests ++ map request payloads

    -- Where no collector and no call of the client fails, and the sender receives, the two
    -- goroutines can come from a round's start to its end: the payloads that the collectors that
    -- are left return, each called behind the sending of the payload before, are collected and
    -- requested, each once and in order, the collector is at its select and the sender receives
    -- again.
    pub collecting-Delivers :
        (cs : List (Exec W (Payload F)))
        → AllReturn cs
        → ((r : SendClusterTelemetryRequest F) (w : W) → (calls.send r w).0 ≡ ok tt)
        → (s : System W F) → s.collector ≡ collecting cs
        → s.sender ≡ receiving
        → (t : System W F) × Delivers cs s t
    collecting-Delivers [] all sent s e f = (
      _,
      record {
        payloads = [];
        reach = later here (advance (Advance.finishes e));
        collector_waits = refl;
        sender_receives = f;
        returned = refl;
        collected = sym (append-nil s.collected);
        requested = sym (append-nil s.requests);
      },
    )
    collecting-Delivers (c ∷ cs) (returns, all) sent s e f =
        let (p, got) = returns s.world in
        let reach1 = later here (advance (Advance.collects e got)) in
        let reach2 = later reach1 (advance (Advance.hands_over refl f)) in
        let reach3 = later reach2 (advance (Advance.sends refl (sent (request p) _))) in
        let (t, d) = collecting-Delivers cs all sent _ refl refl in
        (
          t,
          record {
            payloads = p ∷ d.payloads;
            reach = Reach-trans reach3 d.reach;
            collector_waits = d.collector_waits;
            sender_receives = d.sender_receives;
            returned = (got, d.returned);
            collected = d.collected ∙ append_assoc s.collected (p ∷ []) d.payloads;
            requested =
                d.requested ∙ append_assoc s.requests (request p ∷ []) (map request d.payloads);
          },
        )
