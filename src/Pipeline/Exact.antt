-- ===== src/Pipeline/Exact.antt =====
-- What the agent collects is stored once, in order, whatever others do meanwhile.
use mathlib.Core.Path.{subst}
use mathlib.Core.List.{append_assoc}
use cluster_monitor.Prelude.{
  ◌≡◌, ◌⊎◌, refl, sym, ap, ◌∙◌, inl, inr, Bool, Option, List, [], ◌∷◌, ◌++◌,
}
use cluster_monitor.Go.Result.{ok}
use cluster_monitor.Go.Exec.{Exec}
use cluster_monitor.Go.Float.{Float32}
use cluster_monitor.Api.{Payload}
use cluster_monitor.Agent.Loop.{
  Calls, SenderState, System, request, Advance, advance, cancel, drift, init, Reach, here, later,
}
use cluster_monitor.Agent.Loop.Fifo.{init-Reach-InOrder, held, offered}
use cluster_monitor.Store.Database.{Db, IsLawful, Tables}
use cluster_monitor.Store.Registered.{IsIndexed}
use cluster_monitor.Server.Auth.{ClusterInfo, extract_cluster_info}
use cluster_monitor.Server.Codec.{Codec}
use cluster_monitor.Server.Codec as Codec
use cluster_monitor.Server.Telemetry.{send_cluster_telemetry}
use cluster_monitor.Server.Telemetry.Adds.{Adds}
use cluster_monitor.Server.Telemetry.Laws.{send_cluster_telemetry-Stores}
use cluster_monitor.Server.Telemetry.Partial.{send_cluster_telemetry-StoresPart}
use cluster_monitor.Pipeline.{Link, IsLink, calls_of, Run, start, advances, cancels, turns}
use cluster_monitor.Pipeline.Own.{own, none_added}
use cluster_monitor.Pipeline.Turns.{Turn-SameRows}
use cluster_monitor.Pipeline.Local.{AllLocal, map-at_agent-AllLocal, Local, sent, sent-request}
use cluster_monitor.Pipeline.Saved.{Saved, keeps-Saved, same_server, stored_one, lost_one, ran_one}

module _ {C : Type 0} (db : Db) (lawful : IsLawful db) (float : Float32)
    (codec : Codec float.Carrier) (exact : Codec.IsLawful codec)
    (collectors : List (Exec C (Payload float.Carrier))) (link : Link C db.State)
    (is_link : IsLink link) (enable_auth : Bool) (extracted : Option ClusterInfo)
    (info : ClusterInfo) where
  abbrev F : Type 0
  F = float.Carrier

  abbrev World : Type 0
  World = C × db.State

  abbrev agent : Calls World F
  agent = calls_of db float codec collectors link enable_auth extracted

  abbrev own_at : db.State → Tables
  own_at s = own info.cluster_id (db.tables s)

  module _ (known : extract_cluster_info enable_auth extracted ≡ ok info) where
    Advance-Saved :
        (w : World) (s t : System World F)
        → Advance agent s t
        → Saved C db float codec info w s
        → Saved C db float codec info w t
    Advance-Saved w s t (Advance.collects {c} {cs} h e) inv =
        let (here_, rest) : AllLocal (c ∷ cs) = subst Local h inv.local in
        keeps-Saved C db float codec info w s t inv refl
          (same_server C db float codec info s.world.1 _ (here_ s.world) inv.indexed) (λ z. z) rest
    Advance-Saved w s t (Advance.fails {c} {cs} h e) inv =
        let (here_, rest) : AllLocal (c ∷ cs) = subst Local h inv.local in
        keeps-Saved C db float codec info w s t inv refl
          (same_server C db float codec info s.world.1 _ (here_ s.world) inv.indexed) (λ z. z) tt
    Advance-Saved w s t (Advance.finishes h) inv =
        keeps-Saved C db float codec info w s t inv refl (refl, refl, inv.indexed) (λ z. z) tt
    Advance-Saved w s t (Advance.ticks h) inv =
        keeps-Saved C db float codec info w s t inv refl (refl, refl, inv.indexed) (λ z. z)
          (map-at_agent-AllLocal db.State collectors)
    Advance-Saved w s t (Advance.collector_done h e) inv =
        keeps-Saved C db float codec info w s t inv refl (refl, refl, inv.indexed) (λ z. z) tt
    Advance-Saved w s t (Advance.hands_over {payload} {cs} h r) inv =
        let rest : AllLocal cs = subst Local h inv.local in
        keeps-Saved C db float codec info w s t inv refl (refl, refl, inv.indexed) (λ z. cc) rest
    Advance-Saved w s t (Advance.sender_done r e) inv =
        keeps-Saved C db float codec info w s t inv refl (refl, refl, inv.indexed) (λ z. refl)
          inv.local
    Advance-Saved w s t (Advance.sends {payload} r e) inv =
        let handler = send_cluster_telemetry db codec enable_auth extracted (request payload) in
        let (done, at) = is_link.succeeds handler s.world.0 s.world.1 e in
        let (a, x) =
          send_cluster_telemetry-Stores db lawful codec exact enable_auth info extracted
            (request payload) s.world.1 known inv.indexed done in
        stored_one C db float codec info w s t payload (handler s.world.1).1 r inv refl at a x
          inv.local
    Advance-Saved w s t (Advance.send_fails {payload} r e) inv =
        let handler = send_cluster_telemetry db codec enable_auth extracted (request payload) in
        elim (is_link.fails handler s.world.0 s.world.1 e) [
          | inl same ↦
              lost_one C db float codec info w s t payload r inv refl
                (same_server C db float codec info s.world.1 _ same inv.indexed) refl inv.local
          | inr ran ↦
              ran_one C db float codec info w s t payload (handler s.world.1).1 r inv refl ran
                (send_cluster_telemetry-StoresPart db lawful codec exact enable_auth info extracted
                  (request payload) s.world.1 known inv.indexed)
                refl inv.local
        ]

    Run-Saved :
        (w : World) (s t : System World F)
        → Run db float codec enable_auth info agent s t
        → Saved C db float codec info w s
        → Saved C db float codec info w t
    Run-Saved w s t start inv = inv
    Run-Saved w s t (advances {t = u} r a) inv = Advance-Saved w u t a (Run-Saved w s u r inv)
    Run-Saved w s t (cancels {t = u} r) inv =
        let at : Saved C db float codec info w u = Run-Saved w s u r inv in
        keeps-Saved C db float codec info w u t at refl (refl, refl, at.indexed) (λ z. z) at.local
    Run-Saved w s t (turns {t = u} {w = v} r turn) inv =
        let at : Saved C db float codec info w u = Run-Saved w s u r inv in
        keeps-Saved C db float codec info w u t at refl
          (Turn-SameRows db lawful float codec exact enable_auth info u.world v turn at.indexed)
          (λ z. z) at.local

    -- A run of the agent between the others is a run of it in a world that changes.
    Run-Reach :
        (s t : System World F) → Run db float codec enable_auth info agent s t → Reach agent s t
    Run-Reach s t start = here
    Run-Reach s t (advances {t = u} r a) = later (Run-Reach s u r) (advance a)
    Run-Reach s t (cancels {t = u} r) = later (Run-Reach s u r) cancel
    Run-Reach s t (turns {t = u} {w = v} r turn) = later (Run-Reach s u r) (drift v)

  -- The payloads that were collected are those that are stored, then one that is lost, if the
  -- sender has returned, then the ones on their way; and from the tables of `w` on, the rows of the
  -- cluster in the two histories are those of the stored payloads. The table of clusters is indexed.
  pub record Once (w : World) (t : System World F) : Type 0 where
    pub stored : List (Payload F)
    pub lost : List (Payload F)
    pub in_order : t.collected ≡ stored ++ (lost ++ (held t.sender ++ offered t.collector))
    pub rows : Adds codec info.cluster_id stored (own_at w.1) (own_at t.world.1)
    pub indexed : IsIndexed (db.tables t.world.1).snapshots
    pub last :
        (lost ≡ [])
        ⊎ ((t.sender ≡ SenderState.stopped) × (payload : Payload F) × (lost ≡ payload ∷ []))

  -- Over a lawful database with an indexed table, a lawful codec and a lawful connection, with the
  -- credentials of a cluster, in every state that its agent reaches, between requests of other
  -- clusters, queries and changes of the outside: the rows of the cluster that were added to the
  -- two histories decode to the first payloads that the agent collected, each once and in order;
  -- behind these come one payload at most that is lost, and only where the sender has returned, the
  -- one that the sender is sending and the one that the collector offers.
  pub Run-Once :
      (w : World) (t : System World F)
      → extract_cluster_info enable_auth extracted ≡ ok info
      → IsIndexed (db.tables w.1).snapshots
      → Run db float codec enable_auth info agent (init agent w) t
      → Once w t
  Run-Once w t known x r =
      let order = init-Reach-InOrder agent w t (Run-Reach known (init agent w) t r) in
      let begun : Saved C db float codec info w (init agent w) = record {
        stored = [];
        lost = [];
        made = refl;
        rows = none_added codec info.cluster_id (own_at w.1);
        indexed = x;
        last = inl refl;
        local = map-at_agent-AllLocal db.State collectors;
      } in
      let saved : Saved C db float codec info w t = Run-Saved known w (init agent w) t r begun in
      let same : order.delivered ≡ saved.stored ++ saved.lost =
        sym (sent-request order.delivered)
        ∙ ap sent (sym order.requests_made ∙ saved.made)
        ∙ sent-request (saved.stored ++ saved.lost) in
      record {
        stored = saved.stored;
        lost = saved.lost;
        in_order =
            order.in_order
            ∙ ap (λ l. l ++ (held t.sender ++ offered t.collector)) same
            ∙ append_assoc saved.stored saved.lost (held t.sender ++ offered t.collector);
        rows = saved.rows;
        indexed = saved.indexed;
        last = saved.last;
      }
