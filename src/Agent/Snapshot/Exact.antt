-- ===== src/Agent/Snapshot/Exact.antt =====
-- Where the figures of a snapshot's nodes do not overflow.
use mathlib.Core.Option
use mathlib.Core.Path.{subst}
use cluster_monitor.Prelude.{
  ◌^◌, ◌<◌, ◌≡◌, refl, sym, ap, ◌∙◌, String, Option, none, some, List, [], ◌∷◌, length, arith,
  if◌then◌else◌, inl, inr, Bool-cases,
}
use cluster_monitor.Prelude.Int.{ℤ, pos, IsInt32}
use cluster_monitor.Prelude.Order.{◌==◌, string_ord}
use cluster_monitor.Go.Result.{ok, traverse, bind_inversion, ok-injective}
use cluster_monitor.Go.Map.{GoMap, lookup}
use cluster_monitor.Api.{SnapshotNode, ClusterSnapshot}
use cluster_monitor.Agent.Kube.{Quantities, Node, Pod, Client}
use cluster_monitor.Agent.Snapshot.{memory_of, describe, request_of}
use cluster_monitor.Agent.Snapshot.Nodes.{last_named, requests_at, occupied, find_node}
use cluster_monitor.Agent.Snapshot.Bounds.{sum, occupied_exact}
use cluster_monitor.Agent.Snapshot.Laws.{Describes, build_snapshot-Describes}
use cluster_monitor.Agent.Snapshot.Collect.{build_snapshot}

-- No pod is counted yet.
abbrev IsFresh : SnapshotNode → Type 0
IsFresh n = (n.gpu_occupancy ≡ pos 0) × (n.pod_count ≡ pos 0)

abbrev AllFresh : List SnapshotNode → Type 0
AllFresh [] = Unit
AllFresh (n ∷ ns) = IsFresh n × AllFresh ns

abbrev FreshIfSome : Option SnapshotNode → Type 0
FreshIfSome none = Unit
FreshIfSome (some n) = IsFresh n

last_named-FreshIfSome :
    (g : String) (found : Option SnapshotNode) (ns : List SnapshotNode)
    → FreshIfSome found
    → AllFresh ns
    → FreshIfSome (last_named g found ns)
last_named-FreshIfSome g found [] f a = f
last_named-FreshIfSome g found (n ∷ ns) f (h, a) =
    last_named-FreshIfSome g (if n.name == g then some n else found) ns
      (elim (Bool-cases (n.name == g)) [ inl e ↦ rw e h | inr e ↦ rw e f ]) a

module _ (quantities : Quantities) where
  describe-IsFresh :
      (node : Node quantities.Quantity) (n : SnapshotNode)
      → describe quantities node ≡ ok n
      → IsFresh n
  unfolding describe
  describe-IsFresh node n h =
      let (m, _, e) = bind_inversion (memory_of (lookup "nvidia.com/gpu.memory" node.labels)) _ h in
      rw (← ok-injective e) (refl, refl)

  traverse-AllFresh :
      (nodes : List (Node quantities.Quantity)) (entries : List SnapshotNode)
      → traverse (describe quantities) nodes ≡ ok entries
      → AllFresh entries
  unfolding traverse
  traverse-AllFresh [] entries h = rw (← ok-injective h) tt
  traverse-AllFresh (node ∷ nodes) entries h =
      let (n, e, h1) = bind_inversion (describe quantities node) _ h in
      let (ns, es, h2) = bind_inversion (traverse (describe quantities) nodes) _ h1 in
      rw (← ok-injective h2) (describe-IsFresh node n e, traverse-AllFresh nodes ns es)

occupied_at :
    (vs : List ℤ) (o : Option SnapshotNode) (n : SnapshotNode)
    → Option.map (λ n. occupied n vs) o ≡ some n
    → FreshIfSome o
    → IsInt32 (sum vs)
    → length vs < 2 ^ 31
    → (n.gpu_occupancy ≡ sum vs) × (n.pod_count ≡ pos (length vs))
occupied_at vs none n e f h k = cc
occupied_at vs (some m) n e (o, p) h k =
    let same : occupied m vs ≡ n = ground arith in
    let (a, b) = occupied_exact m vs o p h k in
    (
      ap (λ (q : SnapshotNode). q.gpu_occupancy) (sym same) ∙ a,
      ap (λ (q : SnapshotNode). q.pod_count) (sym same) ∙ b,
    )

module _ (quantities : Quantities) (client : Client quantities.Quantity)
    (target_node_selector : GoMap String String) where
  Describes-exact :
      (s : client.State) (snapshot : ClusterSnapshot)
      (d : Describes quantities client target_node_selector s snapshot) (g : String)
      (n : SnapshotNode)
      → find_node g snapshot.nodes ≡ some n
      → IsInt32 (sum (requests_at g d.requests))
      → length (requests_at g d.requests) < 2 ^ 31
      → (n.gpu_occupancy ≡ sum (requests_at g d.requests))
        × (n.pod_count ≡ pos (length (requests_at g d.requests)))
  Describes-exact s snapshot d g n e =
      occupied_at (requests_at g d.requests) (last_named g none d.entries) n (sym (d.node_at g) ∙ e)
        (last_named-FreshIfSome g none d.entries tt
          (traverse-AllFresh quantities d.nodes d.entries d.described))

  -- Where the requests of the running pods of a node, as read, add up to an int32, and there are
  -- fewer than 2^31 that are not zero, the occupancy that buildSnapshot returns for the node is
  -- their sum, and its pod count is their number.
  pub build_snapshot_exact :
      (s : client.State) (snapshot : ClusterSnapshot) (pods : List (Pod quantities.Quantity))
      (requests : List (String × ℤ)) (g : String) (n : SnapshotNode)
      → (build_snapshot quantities client target_node_selector s).0 ≡ ok snapshot
      → (client.list_pods (client.list_nodes target_node_selector s).1).0 ≡ ok pods
      → traverse (request_of quantities) pods ≡ ok requests
      → find_node g snapshot.nodes ≡ some n
      → IsInt32 (sum (requests_at g requests))
      → length (requests_at g requests) < 2 ^ 31
      → (n.gpu_occupancy ≡ sum (requests_at g requests))
        × (n.pod_count ≡ pos (length (requests_at g requests)))
  build_snapshot_exact s snapshot pods requests g n built listed requested e h k =
      let d = build_snapshot-Describes quantities client target_node_selector s snapshot built in
      let same_pods : pods ≡ d.pods = ok-injective (sym listed ∙ d.pods_listed) in
      let same : d.requests ≡ requests =
        ok-injective
          (sym d.requested ∙ ap (traverse (request_of quantities)) (sym same_pods) ∙ requested) in
      subst
        (λ rs.
          IsInt32 (sum (requests_at g rs))
          → length (requests_at g rs) < 2 ^ 31
          → (n.gpu_occupancy ≡ sum (requests_at g rs))
            × (n.pod_count ≡ pos (length (requests_at g rs))))
        same (Describes-exact s snapshot d g n e) h k
