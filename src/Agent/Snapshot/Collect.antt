-- ===== src/Agent/Snapshot/Collect.antt =====
-- The calls of the client around the snapshot.
use cluster_monitor.Prelude.{String}
use cluster_monitor.Go.Result.{ok}
use cluster_monitor.Go.Exec.{Exec, lift, ◌>>=◌}
use cluster_monitor.Go.Map.{GoMap, values}
use cluster_monitor.Api.{ClusterSnapshot, Payload, cluster_snapshot}
use cluster_monitor.Agent.Kube.{Quantities, Client}
use cluster_monitor.Agent.Snapshot.{collect_nodes, count_pods}

module _ (quantities : Quantities) (client : Client quantities.Quantity)
    (target_node_selector : GoMap String String) where
  -- `buildSnapshot`
  unfoldable pub build_snapshot : Exec client.State ClusterSnapshot
  build_snapshot = do
    node_list ← client.list_nodes target_node_selector
    nodes_by_name ← lift (collect_nodes quantities node_list)
    pod_list ← client.list_pods
    counted ← lift (count_pods quantities nodes_by_name pod_list)
    lift (ok (record { nodes = values counted }))

  -- `collect` of the snapshot collector
  unfoldable pub collect : (F : Type 0) → Exec client.State (Payload F)
  unfolding build_snapshot
  collect F = do snapshot ← build_snapshot; lift (ok (cluster_snapshot snapshot))
