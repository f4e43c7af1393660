-- ===== src/Agent/Config/Laws.antt =====
-- Which configurations of the agent are valid: those that are complete.
use cluster_monitor.Prelude.{◌≡◌, ◌≢◌, ◌↔◌, ◌⊎◌, refl, false, ◌&&◌}
use cluster_monitor.Prelude.Order.{◌==◌, string_ord}
use cluster_monitor.Go.Result.{ok, or_plain, ◌>>◌}
use cluster_monitor.Go.Checks.{refused_iff, sequence_iff, or_plain_iff, is_set_iff, needless_iff}
use cluster_monitor.Agent.Config.{
  Status, KubernetesManagerConfig, Config, validate_manager, validate,
}

module _ (status : Status) where
  -- The address is set, with leader election the identifier too, and the library is content.
  pub record IsComplete (c : Config status) : Type 0 where
    pub address_set : c.cluster_monitor_server_worker_service_addr ≢ ""
    pub election_set :
        (c.kubernetes_manager.enable_leader_election ≡ false)
        ⊎ (c.kubernetes_manager.leader_election_id ≢ "")
    pub status_valid : status.validate c.component_status_sender ≡ ok tt

  validate_manager_iff :
      (c : KubernetesManagerConfig)
      → (validate_manager c ≡ ok tt)
        ↔ ((c.enable_leader_election ≡ false) ⊎ (c.leader_election_id ≢ ""))
  unfolding validate_manager
  validate_manager_iff c =
      let refused =
        refused_iff (c.enable_leader_election && (c.leader_election_id == "")) (ok tt) in
      let needless = needless_iff c.enable_leader_election c.leader_election_id in
      (λ h. needless.0 (refused.0 h).0, λ d. refused.1 (needless.1 d, refl))

  -- The configuration of the agent passes Validate exactly when the address of the server is set,
  -- with leader election its identifier too, and the status sender is accepted by its library.
  pub validate-IsComplete : (c : Config status) → (validate status c ≡ ok tt) ↔ IsComplete c
  unfolding validate
  validate-IsComplete c =
      let manager = validate_manager c.kubernetes_manager in
      let sender = status.validate c.component_status_sender in
      let unset = c.cluster_monitor_server_worker_service_addr == "" in
      let first = refused_iff unset (or_plain manager >> or_plain sender) in
      let second = sequence_iff (or_plain manager) (or_plain sender) in
      (
        λ h.
            let (a, h1) = first.0 h in
            let (m, h2) = second.0 h1 in
            record {
              address_set = (is_set_iff c.cluster_monitor_server_worker_service_addr).0 a;
              election_set =
                  (validate_manager_iff c.kubernetes_manager).0 ((or_plain_iff manager).0 m);
              status_valid = (or_plain_iff sender).0 h2;
            },
        λ v. first.1 (
          (is_set_iff c.cluster_monitor_server_worker_service_addr).1 v.address_set,
          second.1 (
            (or_plain_iff manager).1 ((validate_manager_iff c.kubernetes_manager).1 v.election_set),
            (or_plain_iff sender).1 v.status_valid,
          ),
        ),
      )
