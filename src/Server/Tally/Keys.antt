-- ===== src/Server/Tally/Keys.antt =====
-- The keys that the accumulation stores, and those that are collected.
use cluster_monitor.Prelude.{◌≡◌, Bool, List, [], ◌∷◌}
use cluster_monitor.Prelude.Order.{Ord}
use cluster_monitor.Go.Result.{Result, ok, bind_inversion, ok-injective}
use cluster_monitor.Go.Map.{GoMap, keys, keys-assign-IsUnrepeated}
use cluster_monitor.Go.Sort.{IsUnrepeated}
use cluster_monitor.Server.Tally.{Figures, visit_nodes, tally}

module _ {H N K S : Type 0} ⦃o : Ord K⦄ (fig : Figures N S) (key : H → N → Result K) where
  visit_nodes-IsUnrepeated :
      (nodes : List N) (h : H) (found : GoMap K Bool) (stats : GoMap K S) {m : GoMap K S}
      → visit_nodes fig key h found stats nodes ≡ ok m
      → IsUnrepeated (keys stats)
      → IsUnrepeated (keys m)
  unfolding visit_nodes
  visit_nodes-IsUnrepeated [] h found stats e u = rw (← ok-injective e) u
  visit_nodes-IsUnrepeated (node ∷ nodes) h found stats e u =
      let (v, _, rest) = bind_inversion (key h node) _ e in
      visit_nodes-IsUnrepeated nodes h _ _ rest (keys-assign-IsUnrepeated v _ stats u)

module _ {H N K S : Type 0} ⦃o : Ord K⦄ (fig : Figures N S) (nodes_of : H → Result (List N))
    (key : H → N → Result K) where
  pub tally-IsUnrepeated :
      (hs : List H) (stats : GoMap K S) {m : GoMap K S}
      → tally fig nodes_of key stats hs ≡ ok m
      → IsUnrepeated (keys stats)
      → IsUnrepeated (keys m)
  unfolding tally
  tally-IsUnrepeated [] stats e u = rw (← ok-injective e) u
  tally-IsUnrepeated (h ∷ hs) stats e u =
      let (nodes, _, visited) = bind_inversion (nodes_of h) _ e in
      let (m, done, rest) = bind_inversion (visit_nodes fig key h [] stats nodes) _ visited in
      tally-IsUnrepeated hs m rest (visit_nodes-IsUnrepeated fig key nodes h [] stats done u)
