-- ===== src/Agent/Command/Requests.antt =====
-- The requests that the agent makes, at the server: agent/internal/collector with
-- server/internal/server/cluster_telemetry.go.
use mathlib.Core.Path.{subst}
use mathlib.Core.List.{Memᴰ}
use mathlib.Core.List.Memᴰ
use cluster_monitor.Prelude.{
  ◌≡◌, ◌≢◌, sym, ap, ◌∙◌, String, Bool, true, false, Option, none, some, List, [], ◌∷◌,
  if◌then◌else◌,
}
use cluster_monitor.Prelude.Order.{◌==◌, string_ord}
use cluster_monitor.Go.Result.{
  Result, ok, err, panics, out_of_rounds, Error, internal, invalid_argument, with_status,
  map_result, ok-injective,
}
use cluster_monitor.Go.Exec.{Exec, lift, bind_inversion, continue, ◌>>=◌}
use cluster_monitor.Go.Float.{Float64}
use cluster_monitor.Go.Map.{GoMap}
use cluster_monitor.Api.{Payload, cluster_snapshot, gpu_telemetry, unset}
use cluster_monitor.Store.Database.{Db}
use cluster_monitor.Agent.Kube.{Quantities, Client}
use cluster_monitor.Agent.Dcgm.{Prometheus}
use cluster_monitor.Agent.Snapshot.Collect as Snapshot
use cluster_monitor.Agent.Telemetry.Collect as Telemetry
use cluster_monitor.Agent.Telemetry.Laws.{collect-Measures}
use cluster_monitor.Agent.Config.{Status}
use cluster_monitor.Agent.Loop.{request}
use cluster_monitor.Agent.Command.{Platform, default_update_interval, collectors_of}
use cluster_monitor.Server.Auth.{ClusterInfo, extract_cluster_info}
use cluster_monitor.Server.Codec.{Codec}
use cluster_monitor.Server.Telemetry.{
  process, process_cluster_snapshot, process_gpu_telemetry, process_all, accept,
  send_cluster_telemetry,
}

-- A kind of message that the server knows.
abbrev pub IsKnown : {F : Type 0} → Payload F → Type 0
IsKnown (cluster_snapshot m) = Unit {0}
IsKnown (gpu_telemetry m) = Unit {0}
IsKnown unset = ⊥

module _ {status : Status} {F : Type 0} (float : Float64 F) (quantities : Quantities)
    (client : Client quantities.Quantity)
    (platform : Platform status client.State F float.Carrier) where
  snapshot-IsKnown :
      (selector : GoMap String String) (w : client.State) (p : Payload F)
      → (Snapshot.collect quantities client selector F w).0 ≡ ok p
      → IsKnown p
  unfolding Snapshot.collect
  snapshot-IsKnown selector w p h =
      let (snapshot, e, k, _) =
        bind_inversion (Snapshot.build_snapshot quantities client selector) _ w h in
      rw (← ok-injective k) tt

  telemetry-IsKnown :
      (prom : Prometheus client.State float.Carrier) (selector : GoMap String String)
      (w : client.State) (p : Payload F)
      → (Telemetry.collect float client prom selector default_update_interval w).0 ≡ ok p
      → IsKnown p
  telemetry-IsKnown prom selector w p h =
      let m = collect-Measures float client prom selector default_update_interval w p h in
      rw m.sent tt

  one-IsKnown :
      (selector : GoMap String String) (c : Exec client.State (Payload F)) (w : client.State)
      (p : Payload F)
      → Memᴰ c (Snapshot.collect quantities client selector F ∷ [])
      → (c w).0 ≡ ok p
      → IsKnown p
  one-IsKnown selector c w p (Memᴰ.head q) e =
      snapshot-IsKnown selector w p (ap (λ d. (d w).0) (sym q) ∙ e)
  one-IsKnown selector c w p (Memᴰ.tail m) e = absurd (Memᴰ.not-nil m)

  two-IsKnown :
      (prom : Prometheus client.State float.Carrier) (selector : GoMap String String)
      (c : Exec client.State (Payload F)) (w : client.State) (p : Payload F)
      → Memᴰ c (
          Snapshot.collect quantities client selector F
          ∷ Telemetry.collect float client prom selector default_update_interval
          ∷ [])
      → (c w).0 ≡ ok p
      → IsKnown p
  two-IsKnown prom selector c w p (Memᴰ.head q) e =
      snapshot-IsKnown selector w p (ap (λ d. (d w).0) (sym q) ∙ e)
  two-IsKnown prom selector c w p (Memᴰ.tail (Memᴰ.head q)) e =
      telemetry-IsKnown prom selector w p (ap (λ d. (d w).0) (sym q) ∙ e)
  two-IsKnown prom selector c w p (Memᴰ.tail (Memᴰ.tail m)) e = absurd (Memᴰ.not-nil m)

  collectors_of-IsKnown :
      (url : String) (selector : GoMap String String) (cs : List (Exec client.State (Payload F)))
      (c : Exec client.State (Payload F)) (w : client.State) (p : Payload F)
      → collectors_of float quantities client platform url selector ≡ ok cs
      → Memᴰ c cs
      → (c w).0 ≡ ok p
      → IsKnown p
  unfolding collectors_of
  collectors_of-IsKnown url selector cs c w p h m e = go (url == "") (platform.new_prometheus url) h
    where
      go :
          (b : Bool) (r : Result (Prometheus client.State float.Carrier))
          → (if b
              then ok (Snapshot.collect quantities client selector F ∷ [])
              else map_result
                  (λ prom.
                    Snapshot.collect quantities client selector F
                    ∷ Telemetry.collect float client prom selector default_update_interval
                    ∷ [])
                  r)
            ≡ ok cs
          → IsKnown p
      go true r k = one-IsKnown selector c w p (subst (λ l. Memᴰ c l) (sym (ok-injective k)) m) e
      go false (ok prom) k =
          two-IsKnown prom selector c w p (subst (λ l. Memᴰ c l) (sym (ok-injective k)) m) e
      go false (err x) k = cc
      go false panics k = cc
      go false out_of_rounds k = cc

  module _ (db : Db) (codec : Codec F) where
    -- An error that is given the code Internal has no other.
    internal-valid :
        (r : Result (Unit {0})) (s : db.State)
        → (continue (with_status internal r) (λ _. lift {A = Unit {0}} (ok tt)) s).0
          ≢ err (Error.status invalid_argument)
    internal-valid (ok tt) s h = cc
    internal-valid (err x) s h = cc
    internal-valid panics s h = cc
    internal-valid out_of_rounds s h = cc

    process_all-valid :
        (info : ClusterInfo) (p : Payload F) (s : db.State)
        → IsKnown p
        → (process_all db codec info (p ∷ []) s).0 ≢ err (Error.status invalid_argument)
    unfolding process_all process ◌>>=◌
    process_all-valid info (cluster_snapshot m) s k =
        internal-valid (process_cluster_snapshot db codec info m s).0
          (process_cluster_snapshot db codec info m s).1
    process_all-valid info (gpu_telemetry m) s k =
        internal-valid (process_gpu_telemetry db codec info m s).0
          (process_gpu_telemetry db codec info m s).1
    process_all-valid info unset s k = absurd k

    send-valid :
        (enable_auth : Bool) (extracted : Option ClusterInfo) (p : Payload F) (s : db.State)
        → IsKnown p
        → (send_cluster_telemetry db codec enable_auth extracted (request p) s).0
          ≢ err (Error.status invalid_argument)
    unfolding send_cluster_telemetry accept extract_cluster_info ◌>>=◌
    send-valid false extracted p s k = process_all-valid _ p s k
    send-valid true none p s k = λ h. cc
    send-valid true (some info) p s k = process_all-valid info p s k

    -- For a payload that a collector of the agent returns, SendClusterTelemetry of the request that
    -- the agent makes of it does not fail with InvalidArgument.
    pub collectors_of-valid :
        (url : String) (selector : GoMap String String) (cs : List (Exec client.State (Payload F)))
        (c : Exec client.State (Payload F)) (w : client.State) (p : Payload F) (enable_auth : Bool)
        (extracted : Option ClusterInfo) (s : db.State)
        → collectors_of float quantities client platform url selector ≡ ok cs
        → Memᴰ c cs
        → (c w).0 ≡ ok p
        → (send_cluster_telemetry db codec enable_auth extracted (request p) s).0
          ≢ err (Error.status invalid_argument)
    collectors_of-valid url selector cs c w p enable_auth extracted s h m e =
        send-valid enable_auth extracted p s (collectors_of-IsKnown url selector cs c w p h m e)
