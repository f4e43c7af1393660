-- ===== src/Agent/Kube.antt =====
-- What the agent reads of Kubernetes. The client and the package `resource` are not part of the
-- repository: they are parameters, and of the objects the fields that the agent reads are kept.
use cluster_monitor.Prelude.{String, Option, List}
use cluster_monitor.Prelude.Int.{ℤ}
use cluster_monitor.Go.Map.{GoMap}
use cluster_monitor.Go.Exec.{Exec}

-- `resource.Quantity`
pub record Quantities : Type 1 where
  pub Quantity : Type 0
  -- `v.ToDec().Value()`, an int64
  pub value : Quantity → ℤ
  -- `v.AsInt64()`, with `none` where it returns false
  pub as_int64 : Quantity → Option ℤ

module _ (Q : Type 0) where
  pub record Node : Type 0 where
    pub name : String
    pub labels : GoMap String String
    pub capacity : GoMap String Q

  -- `none` is a nil map.
  pub record Container : Type 0 where
    pub limits : Option (GoMap String Q)

  pub record Pod : Type 0 where
    pub name : String
    pub phase : String
    pub node_name : String
    pub containers : List Container

-- The client, of which the agent uses `List`: the nodes that a selector selects, and all pods.
pub record Client (Q : Type 0) : Type 1 where
  pub State : Type 0
  pub list_nodes : GoMap String String → Exec State (List (Node Q))
  pub list_pods : Exec State (List (Pod Q))
