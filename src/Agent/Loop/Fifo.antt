-- ===== src/Agent/Loop/Fifo.antt =====
-- No payload is lost, repeated or overtaken between a collector and the client.
use mathlib.Core.List.{append_assoc, append-nil, map-append}
use cluster_monitor.Prelude.{◌≡◌, refl, sym, ap, ◌∙◌, List, [], ◌∷◌, ◌++◌, map}
use cluster_monitor.Api.{Payload}
use cluster_monitor.Agent.Loop.{
  Calls, CollectorState, collecting, offering, waiting, SenderState, receiving, calling, System,
  request, Advance, Step, advance, cancel, drift, init, Reach, here, later,
}

module _ {W F : Type 0} where
  -- the payload that the collector holds, and the one that the sender holds
  abbrev pub offered : CollectorState W F → List (Payload F)
  offered (offering payload cs) = payload ∷ []
  offered (collecting cs) = []
  offered waiting = []
  offered CollectorState.stopped = []

  abbrev pub held : SenderState W F → List (Payload F)
  held (calling payload) = payload ∷ []
  held receiving = []
  held SenderState.stopped = []

  -- The requests are the payloads that were delivered, each in one request, and the payloads
  -- collected are these, the one that the sender holds and the one that the collector holds.
  pub record InOrder (s : System W F) : Type 0 where
    pub delivered : List (Payload F)
    pub requests_made : s.requests ≡ map request delivered
    pub in_order : s.collected ≡ delivered ++ (held s.sender ++ offered s.collector)

  -- Nothing changes hands.
  same_hands :
      {s t : System W F}
      → InOrder s
      → t.collected ≡ s.collected
      → t.requests ≡ s.requests
      → held t.sender ≡ held s.sender
      → offered t.collector ≡ offered s.collector
      → InOrder t
  same_hands {s} {t} inv c r h o = record {
    delivered = inv.delivered;
    requests_made = r ∙ inv.requests_made;
    in_order = c ∙ inv.in_order ∙ ap (λ l. inv.delivered ++ l) (sym (rw h (rw o refl)));
  }

  -- A call of the client has returned.
  called :
      {s t : System W F} {payload : Payload F}
      → InOrder s
      → s.sender ≡ calling payload
      → t.collected ≡ s.collected
      → t.requests ≡ s.requests ++ request payload ∷ []
      → held t.sender ≡ []
      → t.collector ≡ s.collector
      → InOrder t
  called {s} {t} {payload} inv r c q h o = record {
    delivered = inv.delivered ++ payload ∷ [];
    requests_made =
        q
        ∙ ap (λ l. l ++ request payload ∷ []) inv.requests_made
        ∙ sym (map-append request inv.delivered (payload ∷ []));
    in_order =
        c
        ∙ inv.in_order
        ∙ ap (λ z. inv.delivered ++ (held z ++ offered s.collector)) r
        ∙ sym (append_assoc inv.delivered (payload ∷ []) (offered s.collector))
        ∙ sym (rw h (rw o refl));
  }

  module _ {calls : Calls W F} where
    Advance-InOrder : {s t : System W F} → Advance calls s t → InOrder s → InOrder t
    Advance-InOrder {s} (Advance.collects {payload = p} c e) inv = record {
      delivered = inv.delivered;
      requests_made = inv.requests_made;
      in_order =
          ap (λ l. l ++ p ∷ [])
            (inv.in_order
              ∙ ap (λ z. inv.delivered ++ (held s.sender ++ offered z)) c
              ∙ ap (λ l. inv.delivered ++ l) (append-nil (held s.sender)))
          ∙ append_assoc inv.delivered (held s.sender) (p ∷ []);
    }
    Advance-InOrder (Advance.fails c e) inv = same_hands inv refl refl refl (rw c refl)
    Advance-InOrder (Advance.finishes c) inv = same_hands inv refl refl refl (rw c refl)
    Advance-InOrder (Advance.ticks c) inv = same_hands inv refl refl refl (rw c refl)
    Advance-InOrder (Advance.collector_done c e) inv = same_hands inv refl refl refl (rw c refl)
    Advance-InOrder {s} (Advance.hands_over {payload = p} c r) inv = record {
      delivered = inv.delivered;
      requests_made = inv.requests_made;
      in_order =
          inv.in_order
          ∙ ap (λ z. inv.delivered ++ (held z ++ offered s.collector)) r
          ∙ ap (λ z. inv.delivered ++ offered z) c;
    }
    Advance-InOrder (Advance.sender_done r e) inv = same_hands inv refl refl (rw r refl) refl
    Advance-InOrder (Advance.sends r e) inv = called inv r refl refl refl refl
    Advance-InOrder (Advance.send_fails r e) inv = called inv r refl refl refl refl

    Step-InOrder : {s t : System W F} → Step calls s t → InOrder s → InOrder t
    Step-InOrder (advance a) inv = Advance-InOrder a inv
    Step-InOrder cancel inv = same_hands inv refl refl refl refl
    Step-InOrder (drift w) inv = same_hands inv refl refl refl refl

    Reach-InOrder : {s t : System W F} → Reach calls s t → InOrder s → InOrder t
    Reach-InOrder here inv = inv
    Reach-InOrder (later r st) inv = Step-InOrder st (Reach-InOrder r inv)

  -- In every state that the two goroutines of the agent reach, the requests made are one for each
  -- payload that was delivered, in order, and the payloads collected are the delivered ones, then
  -- the one that the sender is sending, then the one that the collector offers: none is lost,
  -- repeated or overtaken.
  pub init-Reach-InOrder :
      (calls : Calls W F) (w : W) (s : System W F) → Reach calls (init calls w) s → InOrder s
  init-Reach-InOrder calls w s r =
      Reach-InOrder r (record { delivered = []; requests_made = refl; in_order = refl })
