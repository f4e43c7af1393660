-- ===== src/Pipeline/Local.antt =====
-- Calls of the agent that leave the server alone, and the payloads of its requests.
use cluster_monitor.Prelude.{◌≡◌, ◌⊎◌, refl, ap, inl, inr, List, [], ◌∷◌, ◌++◌, map}
use cluster_monitor.Go.Exec.{Exec}
use cluster_monitor.Api.{Payload, SendClusterTelemetryRequest}
use cluster_monitor.Agent.Loop.{CollectorState, collecting, offering, waiting, request}
use cluster_monitor.Pipeline.{at_agent}

-- The calls leave the server alone.
abbrev pub AllLocal : {C S A : Type 0} → List (Exec (C × S) A) → Type 0
AllLocal [] = Unit
AllLocal {C = C} {S = S} (c ∷ cs) = ((w : C × S) → (c w).1.1 ≡ w.1) × AllLocal cs

pub map-at_agent-AllLocal :
    {C A : Type 0} (S : Type 0) (cs : List (Exec C A))
    → AllLocal {C = C} {S = S} {A = A} (map at_agent cs)
map-at_agent-AllLocal S [] = tt
map-at_agent-AllLocal S (c ∷ cs) = (λ w. refl, map-at_agent-AllLocal S cs)

abbrev pub Local : {C S F : Type 0} → CollectorState (C × S) F → Type 0
Local (collecting cs) = AllLocal cs
Local (offering payload cs) = AllLocal cs
Local waiting = Unit
Local CollectorState.stopped = Unit

-- The payloads of requests.
abbrev pub sent : {F : Type 0} → List (SendClusterTelemetryRequest F) → List (Payload F)
sent [] = []
sent (r ∷ rs) = r.payloads ++ sent rs

pub sent-request : {F : Type 0} (ps : List (Payload F)) → sent (map request ps) ≡ ps
sent-request [] = refl
sent-request (p ∷ ps) = ap (λ l. p ∷ l) (sent-request ps)

-- Of a request with one payload, the part that is stored is the payload or nothing.
pub one_part :
    {F : Type 0} (p : Payload F) (stored rest : List (Payload F))
    → p ∷ [] ≡ stored ++ rest
    → (stored ≡ p ∷ []) ⊎ (stored ≡ [])
one_part p [] rest e = inr refl
one_part p (q ∷ []) rest e = inl cc
one_part p (q ∷ q' ∷ stored) rest e = cc
