-- ===== src/Server/Tally.antt =====
-- The accumulation that both `calculate…Values` functions make: a map from a key to a stat, which is
-- created at its first node, counts the histories that name the key, and adds up their nodes; and
-- the collection of all keys that the histories name.
pub mod Groups
pub mod Keys
pub mod Noted
pub mod Order
use cluster_monitor.Prelude.{Bool, true, false, Option, none, some, List, [], ◌∷◌, if◌then◌else◌}
use cluster_monitor.Prelude.Order.{Ord}
use cluster_monitor.Go.Result.{Result, ok, ◌>>=◌}
use cluster_monitor.Go.Map.{GoMap, lookup, assign}

-- `fresh` is `&stat{}`, `count` is `s.hsCount++` and `add` adds the figures of one node.
pub record Figures (N S : Type 0) : Type 0 where
  pub fresh : S
  pub count : S → S
  pub add : N → S → S

-- `s, ok := stats[v]; if !ok { s = &stat{} }`
abbrev pub or_fresh : {N S : Type 0} → Figures N S → Option S → S
or_fresh fig none = fig.fresh
or_fresh fig (some s) = s

-- `found[v]`
abbrev pub is_found : Option Bool → Bool
is_found none = false
is_found (some b) = b

module _ {H N K S : Type 0} ⦃o : Ord K⦄ (fig : Figures N S) (key : H → N → Result K) where
  -- `for _, node := range snapshot.Nodes`
  unfoldable pub visit_nodes : H → GoMap K Bool → GoMap K S → List N → Result (GoMap K S)
  visit_nodes h found stats [] = ok stats
  visit_nodes h found stats (node ∷ nodes) = do
    v ← key h node
    let s = or_fresh fig (lookup v stats)
    let counted = if is_found (lookup v found) then s else fig.count s
    visit_nodes h (assign v true found) (assign v (fig.add node counted) stats) nodes

module _ {H N K S : Type 0} ⦃o : Ord K⦄ (fig : Figures N S) (nodes_of : H → Result (List N))
    (key : H → N → Result K) where
  -- `for _, h := range hs`
  unfoldable pub tally : GoMap K S → List H → Result (GoMap K S)
  unfolding visit_nodes
  tally stats [] = ok stats
  tally stats (h ∷ hs) = do
    nodes ← nodes_of h
    stats' ← visit_nodes fig key h [] stats nodes
    tally stats' hs

module _ {H N K : Type 0} ⦃o : Ord K⦄ (key : H → N → Result K) where
  -- `for _, node := range snapshot.Nodes { gvalMap[v] = true }`
  unfoldable pub note_nodes : H → GoMap K Bool → List N → Result (GoMap K Bool)
  note_nodes h noted [] = ok noted
  note_nodes h noted (node ∷ nodes) = do v ← key h node; note_nodes h (assign v true noted) nodes

module _ {H N K : Type 0} ⦃o : Ord K⦄ (nodes_of : H → Result (List N))
    (key : H → N → Result K) where
  -- `for _, h := range hs`
  unfoldable pub note_keys : GoMap K Bool → List H → Result (GoMap K Bool)
  unfolding note_nodes
  note_keys noted [] = ok noted
  note_keys noted (h ∷ hs) = do
    nodes ← nodes_of h
    noted' ← note_nodes key h noted nodes
    note_keys noted' hs
