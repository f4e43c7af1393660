-- ===== src/Agent/Snapshot/Laws.antt =====
-- What `buildSnapshot` returns, against a description by node, without the map and the loops.
use mathlib.Core.Option
use mathlib.Core.Path.{subst}
use cluster_monitor.Prelude.{◌≡◌, refl, sym, ap, ◌∙◌, String, none, List, []}
use cluster_monitor.Prelude.Int.{ℤ}
use cluster_monitor.Prelude.Order.{string_ord}
use cluster_monitor.Go.Result.{
  Result, ok, err, panics, out_of_rounds, map_result, traverse, ok-injective, for_each-eq-traverse,
}
use cluster_monitor.Go.Exec.{lift}
use cluster_monitor.Go.Exec as Exec
use cluster_monitor.Go.Map.{GoMap, values, assign}
use cluster_monitor.Go.Sort.{IsUnrepeated}
use cluster_monitor.Api.{SnapshotNode, ClusterSnapshot}
use cluster_monitor.Agent.Kube.{Quantities, Node, Pod, Client}
use cluster_monitor.Agent.Snapshot.{describe, request_of, collect_nodes, count_pods, count_pod}
use cluster_monitor.Agent.Snapshot.Collect.{build_snapshot}
use cluster_monitor.Agent.Snapshot.Nodes.{
  last_named, requests_at, occupied, noted, counted, find_node, node_names, table, table-find,
  table-IsUnrepeated,
}

map_result_ok :
    {A B : Type 0} (f : A → B) (r : Result A) {b : B}
    → map_result f r ≡ ok b
    → (a : A) × (r ≡ ok a) × (f a ≡ b)
map_result_ok f (ok a) h = (a, refl, ok-injective h)
map_result_ok f (err e) h = cc
map_result_ok f panics h = cc
map_result_ok f out_of_rounds h = cc

module _ (quantities : Quantities) where
  open quantities use {Quantity}

  collect_nodes-eq-noted :
      (nodes : List (Node Quantity))
      → collect_nodes quantities nodes
        ≡ map_result (noted []) (traverse (describe quantities) nodes)
  unfolding collect_nodes
  collect_nodes-eq-noted nodes =
      for_each-eq-traverse (describe quantities) (λ n m. assign n.name n m) [] nodes

  count_pods-eq-counted :
      (m : GoMap String SnapshotNode) (pods : List (Pod Quantity))
      → count_pods quantities m pods
        ≡ map_result (counted m) (traverse (request_of quantities) pods)
  unfolding count_pods
  count_pods-eq-counted m pods = for_each-eq-traverse (request_of quantities) count_pod m pods

  module _ (client : Client Quantity) (target_node_selector : GoMap String String) where
    -- A snapshot of the nodes and the pods that the client has listed, one after the other.
    pub record Describes (s : client.State) (snapshot : ClusterSnapshot) : Type 0 where
      pub nodes : List (Node Quantity)
      pub pods : List (Pod Quantity)
      pub nodes_listed : (client.list_nodes target_node_selector s).0 ≡ ok nodes
      pub pods_listed : (client.list_pods (client.list_nodes target_node_selector s).1).0 ≡ ok pods
      pub entries : List SnapshotNode
      pub requests : List (String × ℤ)
      pub described : traverse (describe quantities) nodes ≡ ok entries
      pub requested : traverse (request_of quantities) pods ≡ ok requests
      pub unrepeated : IsUnrepeated (node_names snapshot.nodes)
      pub node_at :
          (g : String)
          → find_node g snapshot.nodes
            ≡ Option.map (λ n. occupied n (requests_at g requests)) (last_named g none entries)

    -- A snapshot that buildSnapshot returns has no two nodes of one name, and for each name just
    -- the entry of the last listed node of that name, on which the non-zero GPU requests of the
    -- running pods of that node are counted; it fails unless each node and each running pod can be
    -- read.
    pub build_snapshot-Describes :
        (s : client.State) (snapshot : ClusterSnapshot)
        → (build_snapshot quantities client target_node_selector s).0 ≡ ok snapshot
        → Describes s snapshot
    unfolding build_snapshot
    build_snapshot-Describes s snapshot h =
        let list = client.list_nodes target_node_selector in
        let (nodes, e1, h1, _) = Exec.bind_inversion list _ s h in
        let s1 = (list s).1 in
        let (m, e2, h2, _) = Exec.bind_inversion (lift (collect_nodes quantities nodes)) _ s1 h1 in
        let (pods, e3, h3, _) = Exec.bind_inversion client.list_pods _ s1 h2 in
        let s2 = (client.list_pods s1).1 in
        let (m', e4, h4, _) = Exec.bind_inversion (lift (count_pods quantities m pods)) _ s2 h3 in
        let (entries, d, noted_as) =
          map_result_ok (noted []) (traverse (describe quantities) nodes)
            (sym (collect_nodes-eq-noted nodes) ∙ e2) in
        let (requests, r, counted_as) =
          map_result_ok (counted m) (traverse (request_of quantities) pods)
            (sym (count_pods-eq-counted m pods) ∙ e4) in
        let same : values (table entries requests) ≡ snapshot.nodes =
          ap values (ap (λ n. counted n requests) noted_as ∙ counted_as)
          ∙ ap (λ (c : ClusterSnapshot). c.nodes) (ok-injective h4) in
        record {
          nodes = nodes;
          pods = pods;
          nodes_listed = e1;
          pods_listed = e3;
          entries = entries;
          requests = requests;
          described = d;
          requested = r;
          unrepeated =
              subst (λ l. IsUnrepeated (node_names l)) same (table-IsUnrepeated entries requests);
          node_at = λ g. ap (find_node g) (sym same) ∙ table-find g entries requests;
        }
