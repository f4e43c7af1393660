-- ===== src/Server/Command/Laws.antt =====
-- What has happened where the command returns no error.
use cluster_monitor.Prelude.{◌≡◌, true, false}
use cluster_monitor.Go.Result.{Result, ok}
use cluster_monitor.Server.Config.{Libraries, Config}
use cluster_monitor.Server.Config.Laws.{IsValid}
use cluster_monitor.Server.Command.{Platform}
use cluster_monitor.Server.Command.Returned.{Returned}

module _ {libs : Libraries} {S : Type 0} (platform : Platform libs S) where
  open platform use {network}

  -- From the state `s` behind the reading of the file: the configuration is valid, its database was
  -- opened and then migrated, and the client and the gateway were made for the gRPC port; then one of
  -- the services has returned.
  pub record Serves (c : Config libs) (s : S) : Type 0 where
    pub valid : IsValid libs c
    pub opened_at : S
    pub migrated_at : S
    pub dialed_at : S
    pub registered_at : S
    pub opened : platform.open_db c.database s ≡ (ok tt, opened_at)
    pub migrated : platform.auto_migrate opened_at ≡ (ok tt, migrated_at)
    pub conn : platform.Conn
    pub dialed : platform.new_client c.grpc_port migrated_at ≡ (ok conn, dialed_at)
    pub registered :
        platform.register_handler (platform.new_serve_mux conn) c.grpc_port dialed_at
        ≡ (ok tt, registered_at)
    pub usage : network.Usage
    pub usage_enabled :
        libs.sender_enable c.usage_sender ≡ true
        → (platform.new_usage c.usage_sender registered_at).0 ≡ ok usage
    pub usage_disabled : libs.sender_enable c.usage_sender ≡ false → usage ≡ platform.noop_usage
    pub returned : Returned platform c conn usage
