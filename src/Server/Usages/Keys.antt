-- ===== src/Server/Usages/Keys.antt =====
-- What `getAllClusterNodes` returns.
use cluster_monitor.Prelude.{◌≡◌, ◌∙◌, String, List, []}
use cluster_monitor.Prelude.Order.{string_ord, pair_ord}
use cluster_monitor.Go.Result.{
  Result, ok, map_result, traverse, bind_inversion, ok-injective, map-bind, bind-ok,
}
use cluster_monitor.Go.Float.{Float32}
use cluster_monitor.Go.Map.{GoMap}
use cluster_monitor.Go.Sort.{IsAscending}
use cluster_monitor.Api.{GpuTelemetry}
use cluster_monitor.Store.Rows.{Bytes, GpuTelemetryHistory}
use cluster_monitor.Server.Tally.{note_keys}
use cluster_monitor.Server.Tally.Groups.{keyed}
use cluster_monitor.Go.Keys.{has}
use cluster_monitor.Server.Tally.Noted.{occurs, sorted_keys-IsAscending, has-note_keys}
use cluster_monitor.Server.Usages.{ClusterNode, nodes_of_known, key_of, get_all_cluster_nodes}

module _ (float : Float32) (unmarshal : Bytes → Result (GpuTelemetry float.Carrier))
    (names : GoMap String String) where
  -- The nodes that getAllClusterNodes returns are in strictly ascending order, by cluster and then
  -- by name, so none comes twice.
  pub get_all_cluster_nodes-IsAscending :
      (hs : List GpuTelemetryHistory) (cns : List ClusterNode)
      → get_all_cluster_nodes float unmarshal names hs ≡ ok cns
      → IsAscending cns
  unfolding get_all_cluster_nodes
  get_all_cluster_nodes-IsAscending hs cns e =
      let nodes = nodes_of_known float unmarshal names in
      let key = key_of float unmarshal names in
      let (m, done, k) = bind_inversion (note_keys nodes key [] hs) _ e in
      rw (← ok-injective k) (sorted_keys-IsAscending nodes key hs done)

  -- getAllClusterNodes returns a node of a cluster exactly when some message of the cluster has it,
  -- and fails where a message cannot be decoded or its cluster has no name.
  pub get_all_cluster_nodes-has :
      (cn : ClusterNode) (hs : List GpuTelemetryHistory)
      → map_result (has cn) (get_all_cluster_nodes float unmarshal names hs)
        ≡ map_result (occurs cn) (
            traverse
              (keyed (nodes_of_known float unmarshal names) (key_of float unmarshal names))
              hs)
  unfolding get_all_cluster_nodes
  get_all_cluster_nodes-has cn hs =
      let nodes = nodes_of_known float unmarshal names in
      let key = key_of float unmarshal names in
      map-bind (has cn) (note_keys nodes key [] hs) _
      ∙ bind-ok (note_keys nodes key [] hs) _
      ∙ has-note_keys nodes key cn hs
