-- ===== src/Agent/Command/Laws.antt =====
-- What has happened where the command starts its manager, and where it does not.
use cluster_monitor.Prelude.{◌≡◌, ◌≢◌, sym, ap, ◌∙◌, String, List}
use cluster_monitor.Go.Result.{ok, ok-injective}
use cluster_monitor.Go.Exec.{Exec, lift, bind_inversion, bind_stopped, continue, ◌>>=◌, ◌>>◌}
use cluster_monitor.Go.Float.{Float64}
use cluster_monitor.Api.{Payload}
use cluster_monitor.Agent.Kube.{Quantities, Client}
use cluster_monitor.Agent.Config.{Status, Config, validate}
use cluster_monitor.Agent.Config.Laws.{IsComplete, validate-IsComplete}
use cluster_monitor.Agent.Command.{
  Platform, collector, sender, default_update_interval, grpc_option, options_of, parse,
  collectors_of, set_up_collector, start_status, run_sender, run, run_cmd,
}

module _ {status : Status} {F : Type 0} (float : Float64 F) (quantities : Quantities)
    (client : Client quantities.Quantity)
    (platform : Platform status client.State F float.Carrier) where
  -- The configuration is valid, and the manager was started with the collector and, behind it, the
  -- sender added to it.
  pub record Boots (c : Config status) : Type 0 where
    pub valid : IsComplete status c
    pub collectors : List (Exec client.State (Payload F))
    pub conn : platform.Conn
    pub before : client.State
    pub chosen :
        collectors_of float quantities client platform c.gpu_telemetry.prometheus_url
          c.target_node_selector
        ≡ ok collectors
    pub collector_added :
        (platform.add (collector collectors default_update_interval) before).0 ≡ ok tt
    pub connected :
        (platform.new_client c.cluster_monitor_server_worker_service_addr
          (grpc_option c.worker)
          (platform.add (collector collectors default_update_interval) before).1).0
        ≡ ok conn
    pub at_sender : client.State
    pub sender_added : (platform.add (sender conn) at_sender).0 ≡ ok tt
    pub started :
        (platform.start (platform.add_healthz_check (platform.add (sender conn) at_sender).1).1).0
        ≡ ok tt

  run-Boots :
      (c : Config status) (s : client.State)
      → IsComplete status c
      → (run float quantities client platform c s).0 ≡ ok tt
      → Boots c
  unfolding run set_up_collector run_sender
  run-Boots c s v h =
      let (_, _, h1, _) = bind_inversion platform.validate_cluster_registration_key _ s h in
      let (rest, _, h2, _) = bind_inversion platform.in_cluster_config _ _ h1 in
      let (_, _, h3, _) = bind_inversion (platform.new_manager rest (options_of c)) _ _ h2 in
      let (_, _, h4, _) = bind_inversion (start_status float quantities client platform c) _ _ h3 in
      let set_up =
        set_up_collector float quantities client platform c.gpu_telemetry.prometheus_url
          c.target_node_selector in
      let s4 =
        (start_status float quantities client platform c
          (platform.new_manager rest (options_of c)
            (platform.in_cluster_config (platform.validate_cluster_registration_key s).1).1).1).1 in
      let (_, e5, h5, _) = bind_inversion set_up _ s4 h4 in
      let (cs, chosen, added, t5) =
        bind_inversion
          (lift (
            collectors_of float quantities client platform c.gpu_telemetry.prometheus_url
              c.target_node_selector))
          _ s4 e5 in
      let tail = run_sender float quantities client platform c in
      let resumed : (tail _).0 ≡ ok tt = ap (λ z. (tail z).0) (sym t5) ∙ h5 in
      let (conn, linked, h6, _) =
        bind_inversion
          (platform.new_client c.cluster_monitor_server_worker_service_addr (grpc_option c.worker))
          _ _ resumed in
      let (_, sent, h7, _) = bind_inversion (platform.add (sender conn)) _ _ h6 in
      let (_, _, h8, _) = bind_inversion platform.add_healthz_check _ _ h7 in
      record {
        valid = v;
        collectors = cs;
        conn = conn;
        before = s4;
        chosen = chosen;
        collector_added = added;
        connected = linked;
        at_sender = _;
        sender_added = sent;
        started = h8;
      }

  -- Where the command of the agent succeeds, the configuration that it read is complete, the
  -- collector was added to the manager with the collectors of the configuration, the sender behind
  -- it with the connection to the configured server, and the manager was started behind both.
  pub run_cmd-Boots :
      (path : String) (s : client.State)
      → (run_cmd float quantities client platform path s).0 ≡ ok tt
      → (c : Config status) × ((parse float quantities client platform path s).0 ≡ ok c) × Boots c
  unfolding run_cmd
  run_cmd-Boots path s h =
      let (c, e, h1, _) = bind_inversion (parse float quantities client platform path) _ s h in
      let s1 = (parse float quantities client platform path s).1 in
      let (_, v, h2, _) = bind_inversion (lift (validate status c)) _ s1 h1 in
      (c, e, run-Boots c s1 ((validate-IsComplete status c).0 v) h2)

  -- Where the configuration that was read is not complete, the command of the agent does not
  -- succeed, and it has called nothing behind the reading of the file.
  pub run_cmd-invalid :
      (path : String) (s : client.State) (c : Config status)
      → (parse float quantities client platform path s).0 ≡ ok c
      → ¬ IsComplete status c
      → ((run_cmd float quantities client platform path s).0 ≢ ok tt)
        × ((run_cmd float quantities client platform path s).1
            ≡ (parse float quantities client platform path s).1)
  unfolding run_cmd ◌>>=◌
  run_cmd-invalid path s c e invalid =
      let s1 = (parse float quantities client platform path s).1 in
      let run_on = run float quantities client platform in
      (
        λ h.
            let (c', e', b) = run_cmd-Boots path s h in
            let same : c' ≡ c = ok-injective (sym e' ∙ e) in invalid (rw (← same) b.valid),
        ap (λ r. (continue r (λ (d : Config status). lift (validate status d) >> run_on d) s1).1) e
            ∙ ap (λ z. z.1)
                (bind_stopped (lift (validate status c)) (λ _. run_on c) s1
                  (λ d. invalid ((validate-IsComplete status c).0 d))),
      )
