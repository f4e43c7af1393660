-- ===== src/Pipeline/Round.antt =====
-- Where nothing fails, a round of the agent ends, and all that it collected is stored.
use mathlib.Core.Path.{subst}
use mathlib.Core.List.{append_assoc, append-nil}
use cluster_monitor.Prelude.{
  ℕ, suc, ◌≡◌, refl, sym, ap, ◌∙◌, inl, inr, Bool, Option, List, [], ◌∷◌, ◌++◌, map, length,
}
use cluster_monitor.Go.Result.{ok}
use cluster_monitor.Go.Exec.{Exec}
use cluster_monitor.Go.Float.{Float32}
use cluster_monitor.Api.{Payload}
use cluster_monitor.Agent.Loop.{
  Calls, collecting, waiting, receiving, System, request, Advance, init,
}
use cluster_monitor.Agent.Loop.Fifo.{held, offered}
use cluster_monitor.Store.Database.{Db, IsLawful}
use cluster_monitor.Store.Registered.{IsIndexed}
use cluster_monitor.Server.Auth.{ClusterInfo, extract_cluster_info}
use cluster_monitor.Server.Codec.{Codec}
use cluster_monitor.Server.Codec as Codec
use cluster_monitor.Server.Telemetry.{send_cluster_telemetry}
use cluster_monitor.Server.Telemetry.Laws.{send_cluster_telemetry-Stores}
use cluster_monitor.Server.Telemetry.Success.{IsUp, Encodes, send_cluster_telemetry-succeeds}
use cluster_monitor.Pipeline.{
  at_agent, Link, IsLink, calls_of, Run, start, advances, cancels, turns,
}
use cluster_monitor.Pipeline.Exact.{Once, Run-Once}

-- A call whose handler returns without an error returns without one.
abbrev pub IsReliable : {C S : Type 0} → Link C S → Type 0
IsReliable {C} {S} link =
    (handler : Exec S (Unit {0})) (a : C) (s : S)
    → (handler s).0 ≡ ok tt
    → (link handler (a, s)).0 ≡ ok tt

-- No collector fails, whatever its world is, and its payloads can be encoded.
abbrev pub AllCollect : {C F : Type 0} → Codec F → List (Exec C (Payload F)) → Type 0
AllCollect codec [] = Unit
AllCollect {C} {F} codec (c ∷ cs) =
    ((a : C) → (p : Payload F) × ((c a).0 ≡ ok p) × Encodes codec p) × AllCollect codec cs

module _ {C : Type 0} (db : Db) (lawful : IsLawful db) (up : IsUp db) (float : Float32)
    (codec : Codec float.Carrier) (exact : Codec.IsLawful codec)
    (collectors : List (Exec C (Payload float.Carrier))) (link : Link C db.State)
    (is_link : IsLink link) (reliable : IsReliable link) (enable_auth : Bool)
    (extracted : Option ClusterInfo) (info : ClusterInfo)
    (known : extract_cluster_info enable_auth extracted ≡ ok info) where
  abbrev F : Type 0
  F = float.Carrier

  abbrev World : Type 0
  World = C × db.State

  abbrev agent : Calls World F
  agent = calls_of db float codec collectors link enable_auth extracted

  abbrev RunsTo : System World F → System World F → Type 0
  RunsTo = Run db float codec enable_auth info agent

  Run-trans : (s t u : System World F) → RunsTo s t → RunsTo t u → RunsTo s u
  Run-trans s t u r start = r
  Run-trans s t u r (advances {t = v} q a) = advances (Run-trans s t v r q) a
  Run-trans s t u r (cancels {t = v} q) = cancels (Run-trans s t v r q)
  Run-trans s t u r (turns {t = v} q turn) = turns (Run-trans s t v r q) turn

  -- The collector has come to its `select`, with `n` payloads more, and the sender receives.
  record Round (n : ℕ) (s t : System World F) : Type 0 where
    payloads : List (Payload F)
    runs : RunsTo s t
    collector_waits : t.collector ≡ waiting
    sender_receives : t.sender ≡ receiving
    counted : length payloads ≡ n
    collected : t.collected ≡ s.collected ++ payloads

  -- The request of a payload succeeds, and the table stays indexed.
  accepted :
      (p : Payload F) (w : World)
      → Encodes codec p
      → IsIndexed (db.tables w.1).snapshots
      → ((agent.send (request p) w).0 ≡ ok tt)
        × IsIndexed (db.tables (agent.send (request p) w).1.1).snapshots
  accepted p (a, s) e x =
      let handler = send_cluster_telemetry db codec enable_auth extracted (request p) in
      let done =
        send_cluster_telemetry-succeeds db lawful up codec exact enable_auth info extracted
          (request p) s known (λ z. cc) (e, tt) x in
      let sent = reliable handler a s done in
      let (_, at) = is_link.succeeds handler a s sent in
      let (_, x') =
        send_cluster_telemetry-Stores db lawful codec exact enable_auth info extracted (request p) s
          known x done in
      (sent, subst (λ z. IsIndexed (db.tables z).snapshots) (sym at) x')

  collecting-Round :
      (cs : List (Exec C (Payload F))) (s : System World F)
      → AllCollect codec cs
      → s.collector ≡ collecting (map at_agent cs)
      → s.sender ≡ receiving
      → IsIndexed (db.tables s.world.1).snapshots
      → (t : System World F) × Round (length cs) s t
  collecting-Round [] s all c r x = (
    _,
    record {
      payloads = [];
      runs = advances start (Advance.finishes c);
      collector_waits = refl;
      sender_receives = r;
      counted = refl;
      collected = sym (append-nil s.collected);
    },
  )
  collecting-Round (k ∷ cs) s (returns, all) c r x =
      let (p, got, e) = returns s.world.0 in
      let run1 = advances start (Advance.collects c got) in
      let run2 = advances run1 (Advance.hands_over refl r) in
      let (sent, x') = accepted p ((k s.world.0).1, s.world.1) e x in
      let run3 = advances run2 (Advance.sends refl sent) in
      let (t, round) = collecting-Round cs _ all refl refl x' in
      (
        t,
        record {
          payloads = p ∷ round.payloads;
          runs = Run-trans s _ t run3 round.runs;
          collector_waits = round.collector_waits;
          sender_receives = round.sender_receives;
          counted = ap suc round.counted;
          collected = round.collected ∙ append_assoc s.collected (p ∷ []) round.payloads;
        },
      )

  -- A round that has ended, with all that was collected stored.
  pub record RoundStored (w : World) (t : System World F) : Type 0 where
    pub runs : RunsTo (init agent w) t
    pub once :
        Once db lawful float codec exact collectors link is_link enable_auth extracted info w t
    pub none_lost : once.lost ≡ []
    pub all_stored : t.collected ≡ once.stored
    pub counted : length t.collected ≡ length collectors
    pub collector_waits : t.collector ≡ waiting
    pub sender_receives : t.sender ≡ receiving

  stored_all :
      (n : ℕ) (w : World) (t : System World F)
      → IsIndexed (db.tables w.1).snapshots
      → length collectors ≡ n
      → Round n (init agent w) t
      → RoundStored w t
  stored_all n w t x size round =
      let once =
        Run-Once db lawful float codec exact collectors link is_link enable_auth extracted info w t
          known x round.runs in
      let none_lost : once.lost ≡ [] = elim once.last [
        | inl none_ ↦ none_
        | inr (stopped, p, one) ↦ cc (round.sender_receives, stopped)
      ] in
      record {
        runs = round.runs;
        once = once;
        none_lost = none_lost;
        all_stored =
            once.in_order
            ∙ ap (λ l. once.stored ++ (l ++ (held t.sender ++ offered t.collector))) none_lost
            ∙ ap (λ z. once.stored ++ (held z ++ offered t.collector)) round.sender_receives
            ∙ ap (λ z. once.stored ++ offered z) round.collector_waits
            ∙ append-nil once.stored;
        counted = ap length round.collected ∙ round.counted ∙ sym size;
        collector_waits = round.collector_waits;
        sender_receives = round.sender_receives;
      }

  -- Over a lawful database with an indexed table of which no statement fails, a lawful codec and a
  -- lawful connection that does not fail where the handler succeeds: if no collector of the agent
  -- fails and its payloads can be encoded, the agent of a known cluster can come from its start to
  -- the end of its first round, where the collector is at its select and the sender receives, and
  -- one payload of each collector is collected and stored, in order.
  pub init-RoundStored :
      (w : World)
      → IsIndexed (db.tables w.1).snapshots
      → AllCollect codec collectors
      → (t : System World F) × RoundStored w t
  init-RoundStored w x all =
      let (t, round) = collecting-Round collectors (init agent w) all refl refl x in
      (t, stored_all (length collectors) w t x refl round)
