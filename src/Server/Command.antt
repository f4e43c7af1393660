-- ===== src/Server/Command.antt =====
-- server/cmd/run.go: the start of the servers. What the libraries do, the command line and the log
-- are no code of the repository.
pub mod Returned
pub mod Laws
use mathlib.Core.List.{Memᴰ}
use cluster_monitor.Prelude.{◌≡◌, ◌≢◌, String, List, [], ◌∷◌, if◌then◌else◌}
use cluster_monitor.Prelude.Int.{ℤ}
use cluster_monitor.Go.Result.{Result, ok, or_plain, map_result}
use cluster_monitor.Go.Exec.{Exec, lift, ◌>>=◌, ◌>>◌}
use cluster_monitor.Server.Config.{Libraries, Config, validate}
use cluster_monitor.Server.Shell.{Network, Guard, WorkerGuard, run, run_worker}

module _ (libs : Libraries) (S : Type 0) where
  -- The libraries: the file system and yaml, common, gorm, grpc and its gateway, api-usage, http.
  pub record Platform : Type 1 where
    pub Bytes : Type 0
    pub Conn : Type 0
    pub Mux : Type 0
    pub network : Network S
    pub read_file : String → Exec S Bytes
    pub unmarshal : Bytes → Result (Config libs)
    pub open_db : libs.DatabaseConfig → Exec S (Unit {0})
    pub auto_migrate : Exec S (Unit {0})
    -- `grpc.NewClient` for a port of this host, and `runtime.NewServeMux` with its health endpoint
    pub new_client : ℤ → Exec S Conn
    pub new_serve_mux : Conn → Mux
    pub register_handler : Mux → ℤ → Exec S (Unit {0})
    -- `sender.New`, with `Run` started, and `NoopUsageSetter`
    pub new_usage : libs.SenderConfig → Exec S network.Usage
    pub noop_usage : network.Usage
    pub listen_and_serve : ℤ → Mux → Exec S (Unit {0})
    pub serve : Guard network → network.Usage → network.Listener → Exec S (Unit {0})
    pub serve_worker : WorkerGuard network → network.Listener → Exec S (Unit {0})

module _ {libs : Libraries} {S : Type 0} (platform : Platform libs S) where
  open platform use {network}

  -- `config.Parse`
  unfoldable pub parse : String → Exec S (Config libs)
  parse path = do
    b ← λ s. (or_plain (platform.read_file path s).0, (platform.read_file path s).1)
    lift (or_plain (platform.unmarshal b))

  unfoldable pub usage_setter : Config libs → Exec S network.Usage
  usage_setter c =
      if libs.sender_enable c.usage_sender
      then platform.new_usage c.usage_sender
      else lift (ok platform.noop_usage)

  -- the three goroutines that `run` starts: the gateway, the query service, the worker service
  abbrev pub services : Config libs → platform.Mux → network.Usage → List (Exec S (Unit {0}))
  services c mux usage =
      platform.listen_and_serve c.http_port mux
      ∷ run network platform.serve c.grpc_port c.auth_config usage
      ∷ run_worker network platform.serve_worker c.worker_service_grpc_port c.auth_config
      ∷ []

  -- `run`, up to the start of the goroutines
  unfoldable pub set_up : Config libs → Exec S (List (Exec S (Unit {0})))
  unfolding usage_setter
  set_up c = do
    platform.open_db c.database
    platform.auto_migrate
    conn ← platform.new_client c.grpc_port
    platform.register_handler (platform.new_serve_mux conn) c.grpc_port
    usage ← usage_setter c
    lift (ok (services c (platform.new_serve_mux conn) usage))

  -- What `run` returns: the error of a step, or what the goroutine that is first to return sends to
  -- the channel, whenever that is.
  pub data Runs (c : Config libs) (s : S) : Result (Unit {0}) → Type 0 where
    not_set_up :
        ((gs : List (Exec S (Unit {0}))) → (set_up c s).0 ≢ ok gs)
        → Runs c s (map_result (λ gs. tt) (set_up c s).0)
    first :
        {gs : List (Exec S (Unit {0}))} {g : Exec S (Unit {0})}
        → (set_up c s).0 ≡ ok gs
        → Memᴰ g gs
        → (t : S) → Runs c s (g t).0

  -- What `RunE` of the command returns.
  pub data RunsCmd (path : String) (s : S) : Result (Unit {0}) → Type 0 where
    unread :
        ((c : Config libs) → (parse path s).0 ≢ ok c)
        → RunsCmd path s (map_result (λ c. tt) (parse path s).0)
    invalid :
        {c : Config libs}
        → (parse path s).0 ≡ ok c
        → validate libs c ≢ ok tt
        → RunsCmd path s (validate libs c)
    runs :
        {c : Config libs} {r : Result (Unit {0})}
        → (parse path s).0 ≡ ok c
        → validate libs c ≡ ok tt
        → Runs c (parse path s).1 r
        → RunsCmd path s r
