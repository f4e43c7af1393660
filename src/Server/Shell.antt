-- ===== src/Server/Shell.antt =====
-- server/internal/server/server.go and ws_server.go: Run of the two services, with the interceptors
-- through which their handlers are called. The interceptors of rbac-manager and api-usage, and the
-- network, are no code of the repository.
pub mod Standalone
use cluster_monitor.Prelude.{String, Bool, true, false, Option, some, List, [], ◌∷◌, if◌then◌else◌}
use cluster_monitor.Prelude.Int.{ℤ}
use cluster_monitor.Go.Result.{ok, or_plain}
use cluster_monitor.Go.Exec.{Exec, lift, ◌>>=◌}
use cluster_monitor.Server.Auth.{UserInfo, ClusterInfo, fake_user}
use cluster_monitor.Server.Config.{AuthConfig}

-- What the package `auth` finds in a context: the user and the cluster.
pub record Context : Type 0 where
  pub user : Option UserInfo
  pub cluster : Option ClusterInfo

abbrev pub Handler : Type 0 → Type 0 → Type 0 → Type 0
Handler S Q R = Context → Q → Exec S R

module _ (S : Type 0) where
  pub record Network : Type 1 where
    -- rbac-manager: `NewInterceptor` for an address and a resource, with its `Unary` for the
    -- methods that it lets pass, and `NewWorkerInterceptor` for an address, with its `Unary`
    pub Interceptor : Type 0
    pub new_interceptor : String → String → Exec S Interceptor
    pub unary : Interceptor → List String → {Q R : Type 0} → Handler S Q R → Handler S Q R
    pub WorkerInterceptor : Type 0
    pub new_worker_interceptor : String → Exec S WorkerInterceptor
    pub worker_unary : WorkerInterceptor → {Q R : Type 0} → Handler S Q R → Handler S Q R
    -- api-usage: `Unary` of a setter
    pub Usage : Type 0
    pub usage_unary : Usage → {Q R : Type 0} → Handler S Q R → Handler S Q R
    -- `net.Listen` on a port
    pub Listener : Type 0
    pub listen : ℤ → Exec S Listener

-- the resource that a caller of the query service needs access to
abbrev pub access_resource : String
access_resource = "api.clusters"

abbrev pub health_check : String
health_check = "/grpc.health.v1.Health/Check"

-- `fakeAuthInto`
abbrev pub fake_auth_into : Context → Context
fake_auth_into ctx = record ctx { user = some fake_user }

module _ {S : Type 0} (network : Network S) where
  -- The interceptor in front of the one for the usage: that of rbac-manager, or `fakeAuth`.
  pub data Guard : Type 0 where
    authenticated : network.Interceptor → Guard
    fake : Guard

  unfoldable pub guard_of : AuthConfig → Exec S Guard
  guard_of auth_config =
      if auth_config.enable
      then (do
        ai ← network.new_interceptor auth_config.rbac_internal_server_addr access_resource
        lift (ok (authenticated ai)))
      else lift (ok fake)

  -- a handler behind `ChainUnaryInterceptor`
  unfoldable pub intercept : Guard → network.Usage → {Q R : Type 0} → Handler S Q R → Handler S Q R
  intercept (authenticated ai) usage h =
      network.unary ai (health_check ∷ []) (network.usage_unary usage h)
  intercept fake usage h = λ ctx. network.usage_unary usage h (fake_auth_into ctx)

  -- `Run` of the query service; `serve` is `Serve` of a server with these interceptors
  unfoldable pub run :
      (Guard → network.Usage → network.Listener → Exec S (Unit {0}))
      → ℤ
      → AuthConfig
      → network.Usage
      → Exec S (Unit {0})
  unfolding guard_of
  run serve port auth_config usage = do
    guard ← guard_of auth_config
    l ← λ s. (or_plain (network.listen port s).0, (network.listen port s).1)
    λ s. (or_plain (serve guard usage l s).0, (serve guard usage l s).1)

  -- The interceptor of the worker service, if there is one.
  pub data WorkerGuard : Type 0 where
    authenticated : network.WorkerInterceptor → WorkerGuard
    unguarded : WorkerGuard

  unfoldable pub worker_guard_of : AuthConfig → Exec S WorkerGuard
  worker_guard_of auth_config =
      if auth_config.enable
      then (do
        ai ← network.new_worker_interceptor auth_config.rbac_internal_server_addr
        lift (ok (WorkerGuard.authenticated ai)))
      else lift (ok unguarded)

  -- `ws.enableAuth`
  abbrev pub enable_auth : WorkerGuard → Bool
  enable_auth (WorkerGuard.authenticated ai) = true
  enable_auth unguarded = false

  unfoldable pub intercept_worker : WorkerGuard → {Q R : Type 0} → Handler S Q R → Handler S Q R
  intercept_worker (WorkerGuard.authenticated ai) h = network.worker_unary ai h
  intercept_worker unguarded h = h

  -- `Run` of the worker service, which returns the errors wrapped
  unfoldable pub run_worker :
      (WorkerGuard → network.Listener → Exec S (Unit {0})) → ℤ → AuthConfig → Exec S (Unit {0})
  unfolding worker_guard_of
  run_worker serve port auth_config = do
    guard ← worker_guard_of auth_config
    l ← network.listen port
    serve guard l
