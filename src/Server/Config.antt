-- ===== src/Server/Config.antt =====
-- server/internal/config/config.go: the configuration of the server. Parsing is a library's.
pub mod Laws
use cluster_monitor.Prelude.{String, Bool, true, false, if◌then◌else◌, not}
use cluster_monitor.Prelude.Int.{ℤ, pos, ltb_ℤ}
use cluster_monitor.Prelude.Order.{◌==◌, string_ord}
use cluster_monitor.Go.Result.{Result, ok, err, plain, or_plain, ◌>>◌}

pub record DebugConfig : Type 0 where
  pub standalone : Bool
  pub sqlite_path : String

pub record AuthConfig : Type 0 where
  pub enable : Bool
  pub rbac_internal_server_addr : String

-- `Validate` of AuthConfig
unfoldable pub validate_auth : AuthConfig → Result (Unit {0})
validate_auth c =
    if not c.enable then ok tt else if c.rbac_internal_server_addr == "" then err plain else ok tt

-- `db.Config` of common and `sender.Config` of api-usage, which are not part of the repository, with
-- their `Validate`
pub record Libraries : Type 1 where
  pub DatabaseConfig : Type 0
  pub validate_database : DatabaseConfig → Result (Unit {0})
  pub SenderConfig : Type 0
  pub sender_enable : SenderConfig → Bool
  pub validate_sender : SenderConfig → Result (Unit {0})

-- `port <= 0`
abbrev pub not_positive : ℤ → Bool
not_positive port = ltb_ℤ port (pos 1)

module _ (libs : Libraries) where
  pub record Config : Type 0 where
    pub http_port : ℤ
    pub grpc_port : ℤ
    pub worker_service_grpc_port : ℤ
    pub database : libs.DatabaseConfig
    pub auth_config : AuthConfig
    pub usage_sender : libs.SenderConfig
    pub debug : DebugConfig

  -- the test of the database, or in its place of the path
  unfoldable pub validate_storage : Config → Result (Unit {0})
  validate_storage c =
      if c.debug.standalone
      then (if c.debug.sqlite_path == "" then err plain else ok tt)
      else or_plain (libs.validate_database c.database)

  -- `Validate`
  unfoldable pub validate : Config → Result (Unit {0})
  unfolding validate_auth validate_storage
  validate c =
      if not_positive c.http_port
      then err plain
      else if not_positive c.grpc_port
      then err plain
      else if not_positive c.worker_service_grpc_port
      then err plain
      else (do
        validate_storage c
        or_plain (validate_auth c.auth_config)
        libs.validate_sender c.usage_sender)
