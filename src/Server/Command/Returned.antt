-- ===== src/Server/Command/Returned.antt =====
-- The services, and what has happened where one of them returns no error.
use mathlib.Core.Path.{subst}
use mathlib.Core.List.{Memᴰ}
use cluster_monitor.Prelude.{◌≡◌, sym, ap, ◌∙◌, true, false, inl, inr, Bool-cases}
use cluster_monitor.Go.Result.{ok, ok-injective, or_plain, or_plain-ok}
use cluster_monitor.Go.Exec.{Exec, lift, bind_inversion, ◌>>=◌}
use cluster_monitor.Server.Config.{Libraries, Config, AuthConfig}
use cluster_monitor.Server.Shell.{Guard, WorkerGuard, guard_of, worker_guard_of, run, run_worker}
use cluster_monitor.Server.Command.{Platform, services}

module _ {libs : Libraries} {S : Type 0} (platform : Platform libs S) where
  open platform use {network}

  -- The guard is the one of rbac-manager for the address, and for the resource of the clusters, where
  -- authentication is enabled, and the fake one where it is not.
  pub data GuardFor (auth : AuthConfig) : Guard network → Type 0 where
    enabled :
        {ai : network.Interceptor} {s : S}
        → auth.enable ≡ true
        → (network.new_interceptor auth.rbac_internal_server_addr "api.clusters" s).0 ≡ ok ai
        → GuardFor auth (Guard.authenticated ai)
    disabled : auth.enable ≡ false → GuardFor auth Guard.fake

  pub data WorkerGuardFor (auth : AuthConfig) : WorkerGuard network → Type 0 where
    enabled :
        {ai : network.WorkerInterceptor} {s : S}
        → auth.enable ≡ true
        → (network.new_worker_interceptor auth.rbac_internal_server_addr s).0 ≡ ok ai
        → WorkerGuardFor auth (WorkerGuard.authenticated ai)
    disabled : auth.enable ≡ false → WorkerGuardFor auth WorkerGuard.unguarded

  -- One of the three services has returned without an error: the gateway on the HTTP port, or one of
  -- the two gRPC services, behind its guard and on a listener of its port.
  pub data Returned (c : Config libs) (conn : platform.Conn) (usage : network.Usage) : Type 0 where
    gateway :
        (at : S)
        → (platform.listen_and_serve c.http_port (platform.new_serve_mux conn) at).0 ≡ ok tt
        → Returned c conn usage
    query_service :
        (guard : Guard network) (l : network.Listener) (listens_at at : S)
        → GuardFor c.auth_config guard
        → (network.listen c.grpc_port listens_at).0 ≡ ok l
        → (platform.serve guard usage l at).0 ≡ ok tt
        → Returned c conn usage
    worker_service :
        (guard : WorkerGuard network) (l : network.Listener) (listens_at at : S)
        → WorkerGuardFor c.auth_config guard
        → (network.listen c.worker_service_grpc_port listens_at).0 ≡ ok l
        → (platform.serve_worker guard l at).0 ≡ ok tt
        → Returned c conn usage

  guard_of-GuardFor :
      (auth : AuthConfig) (s : S) (guard : Guard network)
      → (guard_of network auth s).0 ≡ ok guard
      → GuardFor auth guard
  unfolding guard_of ◌>>=◌
  guard_of-GuardFor auth s guard h = elim (Bool-cases auth.enable) [
    | inl on ↦
        let (ai, e, k, _) =
          bind_inversion (network.new_interceptor auth.rbac_internal_server_addr "api.clusters")
            (λ a. lift (ok (Guard.authenticated a))) s (rw on at h) in
        subst (GuardFor auth) (ok-injective k) (GuardFor.enabled on e)
    | inr off ↦ subst (GuardFor auth) (ok-injective (rw off at h)) (GuardFor.disabled off)
  ]

  worker_guard_of-WorkerGuardFor :
      (auth : AuthConfig) (s : S) (guard : WorkerGuard network)
      → (worker_guard_of network auth s).0 ≡ ok guard
      → WorkerGuardFor auth guard
  unfolding worker_guard_of ◌>>=◌
  worker_guard_of-WorkerGuardFor auth s guard h = elim (Bool-cases auth.enable) [
    | inl on ↦
        let (ai, e, k, _) =
          bind_inversion (network.new_worker_interceptor auth.rbac_internal_server_addr)
            (λ a. lift (ok (WorkerGuard.authenticated a))) s (rw on at h) in
        subst (WorkerGuardFor auth) (ok-injective k) (WorkerGuardFor.enabled on e)
    | inr off ↦
        subst (WorkerGuardFor auth) (ok-injective (rw off at h)) (WorkerGuardFor.disabled off)
  ]

  pub services-Returned :
      (c : Config libs) (conn : platform.Conn) (usage : network.Usage) (g : Exec S (Unit {0}))
      → Memᴰ g (services platform c (platform.new_serve_mux conn) usage)
      → (t : S) → (g t).0 ≡ ok tt
      → Returned c conn usage
  unfolding run run_worker
  services-Returned c conn usage g (Memᴰ.head e) t h =
      Returned.gateway t (ap (λ f. (f t).0) (sym e) ∙ h)
  services-Returned c conn usage g (Memᴰ.tail (Memᴰ.head e)) t h =
      let (guard, e1, h1, _) =
        bind_inversion (guard_of network c.auth_config) _ t (ap (λ f. (f t).0) (sym e) ∙ h) in
      let s1 = (guard_of network c.auth_config t).1 in
      let listen : Exec S network.Listener =
        λ s. (or_plain (network.listen c.grpc_port s).0, (network.listen c.grpc_port s).1) in
      let (l, e2, h2, _) = bind_inversion listen _ s1 h1 in
      Returned.query_service guard l s1 (network.listen c.grpc_port s1).1
        (guard_of-GuardFor c.auth_config t guard e1) (or_plain-ok _ e2) (or_plain-ok _ h2)
  services-Returned c conn usage g (Memᴰ.tail (Memᴰ.tail (Memᴰ.head e))) t h =
      let (guard, e1, h1, _) =
        bind_inversion (worker_guard_of network c.auth_config) _ t
          (ap (λ f. (f t).0) (sym e) ∙ h) in
      let s1 = (worker_guard_of network c.auth_config t).1 in
      let (l, e2, h2, _) = bind_inversion (network.listen c.worker_service_grpc_port) _ s1 h1 in
      Returned.worker_service guard l s1 (network.listen c.worker_service_grpc_port s1).1
        (worker_guard_of-WorkerGuardFor c.auth_config t guard e1) e2 h2
  services-Returned c conn usage g (Memᴰ.tail (Memᴰ.tail (Memᴰ.tail m))) t h = elim m [ ]
