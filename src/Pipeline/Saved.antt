-- ===== src/Pipeline/Saved.antt =====
-- The rows of a cluster while its agent sends.
use mathlib.Core.Path.{subst}
use mathlib.Core.List.{append-nil, map-append}
use cluster_monitor.Prelude.{◌≡◌, ◌⊎◌, refl, sym, ap, ◌∙◌, inl, inr, List, [], ◌∷◌, ◌++◌, map}
use cluster_monitor.Go.Float.{Float32}
use cluster_monitor.Api.{Payload}
use cluster_monitor.Agent.Loop.{SenderState, calling, System, request}
use cluster_monitor.Store.Database.{Db, Tables}
use cluster_monitor.Store.Registered.{IsIndexed}
use cluster_monitor.Server.Auth.{ClusterInfo}
use cluster_monitor.Server.Codec.{Codec}
use cluster_monitor.Server.Telemetry.Adds.{Adds, Adds-append, Adds-same}
use cluster_monitor.Server.Telemetry.Partial.{StoresPart}
use cluster_monitor.Pipeline.Own.{own, own-Adds, own-none}
use cluster_monitor.Pipeline.Turns.{SameRows}
use cluster_monitor.Pipeline.Local.{Local, one_part}

module _ (C : Type 0) (db : Db) (float : Float32) (codec : Codec float.Carrier)
    (info : ClusterInfo) where
  abbrev F : Type 0
  F = float.Carrier

  abbrev World : Type 0
  World = C × db.State

  abbrev own_at : db.State → Tables
  own_at s = own info.cluster_id (db.tables s)

  -- From the server of `w` on, the rows of the cluster are those of the payloads that were sent;
  -- but the last one may be lost, and then the sender has returned.
  pub record Saved (w : World) (t : System World F) : Type 0 where
    pub stored : List (Payload F)
    pub lost : List (Payload F)
    pub made : t.requests ≡ map request (stored ++ lost)
    pub rows : Adds codec info.cluster_id stored (own_at w.1) (own_at t.world.1)
    pub indexed : IsIndexed (db.tables t.world.1).snapshots
    pub last :
        (lost ≡ [])
        ⊎ ((t.sender ≡ SenderState.stopped) × (payload : Payload F) × (lost ≡ payload ∷ []))
    pub local : Local t.collector

  -- Nothing is sent.
  pub keeps-Saved :
      (w : World) (s t : System World F)
      → Saved w s
      → t.requests ≡ s.requests
      → SameRows info.cluster_id (db.tables s.world.1) (db.tables t.world.1)
      → (s.sender ≡ SenderState.stopped → t.sender ≡ SenderState.stopped)
      → Local t.collector
      → Saved w t
  keeps-Saved w s t inv made (h, k, x) stops local = record {
    stored = inv.stored;
    lost = inv.lost;
    made = made ∙ inv.made;
    rows =
        Adds-same codec info.cluster_id inv.stored (own_at w.1) (own_at s.world.1)
          (own_at t.world.1) inv.rows h k;
    indexed = x;
    last = elim inv.last [
      | inl none_ ↦ inl none_
      | inr (stopped, payload, one) ↦ inr (stops stopped, payload, one)
    ];
    local = local;
  }

  pub same_server :
      (s u : db.State)
      → u ≡ s
      → IsIndexed (db.tables s).snapshots
      → SameRows info.cluster_id (db.tables s) (db.tables u)
  same_server s u e x =
      subst (λ z. SameRows info.cluster_id (db.tables s) (db.tables z)) (sym e) (refl, refl, x)

  unsent :
      (w : World) (s : System World F) (payload : Payload F)
      → s.sender ≡ calling payload
      → (inv : Saved w s) → inv.lost ≡ []
  unsent w s payload r inv = elim inv.last [ inl none_ ↦ none_ | inr (stopped, p, one) ↦ cc ]

  made_one :
      (w : World) (s : System World F) (payload : Payload F)
      → s.sender ≡ calling payload
      → (inv : Saved w s)
      → s.requests ++ request payload ∷ [] ≡ map request (inv.stored ++ payload ∷ [])
  made_one w s payload r inv =
      ap (λ l. l ++ request payload ∷ [])
        (inv.made
          ∙ ap (λ l. map request (inv.stored ++ l)) (unsent w s payload r inv)
          ∙ ap (map request) (append-nil inv.stored))
      ∙ sym (map-append request inv.stored (payload ∷ []))

  -- The payload is stored.
  pub stored_one :
      (w : World) (s t : System World F) (payload : Payload F) (u : db.State)
      → s.sender ≡ calling payload
      → Saved w s
      → t.requests ≡ s.requests ++ request payload ∷ []
      → t.world.1 ≡ u
      → Adds codec info.cluster_id (payload ∷ []) (db.tables s.world.1) (db.tables u)
      → IsIndexed (db.tables u).snapshots
      → Local t.collector
      → Saved w t
  stored_one w s t payload u r inv made e a x local = record {
    stored = inv.stored ++ payload ∷ [];
    lost = [];
    made =
        made
        ∙ made_one w s payload r inv
        ∙ ap (map request) (sym (append-nil (inv.stored ++ payload ∷ [])));
    rows =
        subst (λ z. Adds codec info.cluster_id (inv.stored ++ payload ∷ []) (own_at w.1) (own_at z))
          (sym e)
          (Adds-append codec info.cluster_id inv.stored (payload ∷ []) (own_at w.1)
            (own_at s.world.1) (own_at u) inv.rows
            (own-Adds codec info.cluster_id (payload ∷ []) (db.tables s.world.1) (db.tables u) a));
    indexed = subst (λ z. IsIndexed (db.tables z).snapshots) (sym e) x;
    last = inl refl;
    local = local;
  }

  -- The payload is lost.
  pub lost_one :
      (w : World) (s t : System World F) (payload : Payload F)
      → s.sender ≡ calling payload
      → Saved w s
      → t.requests ≡ s.requests ++ request payload ∷ []
      → SameRows info.cluster_id (db.tables s.world.1) (db.tables t.world.1)
      → t.sender ≡ SenderState.stopped
      → Local t.collector
      → Saved w t
  lost_one w s t payload r inv made (h, k, x) stopped local = record {
    stored = inv.stored;
    lost = payload ∷ [];
    made = made ∙ made_one w s payload r inv;
    rows =
        Adds-same codec info.cluster_id inv.stored (own_at w.1) (own_at s.world.1)
          (own_at t.world.1) inv.rows h k;
    indexed = x;
    last = inr (stopped, payload, refl);
    local = local;
  }

  -- The handler ran, but the call failed.
  pub ran_one :
      (w : World) (s t : System World F) (payload : Payload F) (u : db.State)
      → s.sender ≡ calling payload
      → Saved w s
      → t.requests ≡ s.requests ++ request payload ∷ []
      → t.world.1 ≡ u
      → StoresPart db codec info (payload ∷ []) s.world.1 u
      → t.sender ≡ SenderState.stopped
      → Local t.collector
      → Saved w t
  ran_one w s t payload u r inv made e part stopped local =
      let (a, x) = part.stores in
      elim (one_part payload part.stored part.rest part.split) [
        | inl all ↦
            let a' : Adds codec info.cluster_id (payload ∷ []) (db.tables s.world.1) (db.tables u) =
              subst (λ ps. Adds codec info.cluster_id ps (db.tables s.world.1) (db.tables u)) all
                a in
            stored_one w s t payload u r inv made e a' x local
        | inr nothing ↦
            let a' : Adds codec info.cluster_id [] (db.tables s.world.1) (db.tables u) =
              subst (λ ps. Adds codec info.cluster_id ps (db.tables s.world.1) (db.tables u))
                nothing a in
            let (h, k) = own-none codec info.cluster_id (db.tables s.world.1) (db.tables u) a' in
            lost_one w s t payload r inv made
              (subst (λ z. SameRows info.cluster_id (db.tables s.world.1) (db.tables z)) (sym e)
                (h, k, x))
              stopped local
      ]
