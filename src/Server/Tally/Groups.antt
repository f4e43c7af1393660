-- ===== src/Server/Tally/Groups.antt =====
-- What the accumulation holds for one key: the nodes of that key, history by history, in order.
use cluster_monitor.Prelude.{
  ◌≡◌, refl, sym, ap, ◌∙◌, inl, inr, Bool, true, false, Option, some, List, [], ◌∷◌, map, foldl,
  if◌then◌else◌, Bool-cases,
}
use mathlib.Core.Path.{fun_ext}
use cluster_monitor.Prelude.Order.{Ord, ◌==◌, eq_of_==}
use cluster_monitor.Go.Result.{
  Result, ok, err, panics, out_of_rounds, map_result, traverse, map-bind, bind_congr, ◌>>=◌,
}
use cluster_monitor.Go.Map.{GoMap, lookup, assign, lookup-assign}
use cluster_monitor.Server.Tally.{Figures, or_fresh, is_found, visit_nodes, tally}

module _ {K N : Type 0} ⦃o : Ord K⦄ where
  -- The nodes of one key.
  abbrev pub mine : K → List (K × N) → List N
  mine g [] = []
  mine g ((v, n) ∷ l) = let rest = mine g l in if v == g then n ∷ rest else rest

module _ {N S : Type 0} (fig : Figures N S) where
  -- The stat of a key after one history, from the nodes of the key in it.
  abbrev pub after_history : Bool → Option S → List N → Option S
  after_history seen s [] = s
  after_history seen s (n ∷ ns) = some (
      foldl (λ t m. fig.add m t) (if seen then or_fresh fig s else fig.count (or_fresh fig s))
        (n ∷ ns))

  -- Once the history is counted, its nodes are added to the stat.
  pub after_seen :
      (s : S) (ns : List N)
      → after_history true (some s) ns ≡ some (foldl (λ t m. fig.add m t) s ns)
  after_seen s [] = refl
  after_seen s (n ∷ ns) = refl

  abbrev pub after_histories : Option S → List (List N) → Option S
  after_histories = foldl (after_history false)

module _ {H N K : Type 0} ⦃o : Ord K⦄ (key : H → N → Result K) where
  -- The key of each node, or the error that stops the computation of the keys.
  pub keyed_nodes : H → List N → Result (List (K × N))
  unfolding traverse
  keyed_nodes h = traverse (λ n. map_result (λ v. (v, n)) (key h n))

module _ {H N K : Type 0} ⦃o : Ord K⦄ (nodes_of : H → Result (List N))
    (key : H → N → Result K) where
  pub keyed : H → Result (List (K × N))
  keyed h = nodes_of h >>= keyed_nodes key h

module _ {N K S : Type 0} ⦃o : Ord K⦄ (fig : Figures N S) where
  -- A `map_result` behind the tail of a traversal.
  mine_cons :
      (g v : K) (node : N) (seen : Bool) (s : Option S) (r : Result (List (K × N)))
      → map_result (λ l. after_history fig seen s (mine g l)) (r >>= λ l. ok ((v, node) ∷ l))
        ≡ map_result (λ l. after_history fig seen s (mine g ((v, node) ∷ l))) r
  mine_cons g v node seen s (ok l) = refl
  mine_cons g v node seen s (err e) = refl
  mine_cons g v node seen s panics = refl
  mine_cons g v node seen s out_of_rounds = refl

  -- One node more, seen from the key `g`.
  step_at :
      (g v : K) (node : N) (found : GoMap K Bool) (stats : GoMap K S) (l : List (K × N))
      → after_history fig
          (is_found (lookup g (assign v true found)))
          (lookup g (
            assign v
              (fig.add node (
                if is_found (lookup v found)
                then or_fresh fig (lookup v stats)
                else fig.count (or_fresh fig (lookup v stats))))
              stats))
          (mine g l)
        ≡ after_history fig (is_found (lookup g found)) (lookup g stats) (mine g ((v, node) ∷ l))
  step_at g v node found stats l = rw lookup-assign (
      rw lookup-assign (elim (Bool-cases (v == g)) [
        | inl same ↦ rw same (rw (eq_of_== v g same) (after_seen fig _ (mine g l)))
        | inr differ ↦ rw differ
      ]))

module _ {H N K S : Type 0} ⦃o : Ord K⦄ (fig : Figures N S) (key : H → N → Result K) where
  -- The claim of `visit_nodes-lookup`, for the nodes of one history.
  abbrev AtKey : K → H → List N → Type 0
  AtKey g h nodes =
      (found : GoMap K Bool) (stats : GoMap K S)
      → map_result (lookup g) (visit_nodes fig key h found stats nodes)
        ≡ map_result
            (λ l. after_history fig (is_found (lookup g found)) (lookup g stats) (mine g l))
            (keyed_nodes key h nodes)

  visit_nodes-lookup : (g : K) (h : H) (nodes : List N) → AtKey g h nodes
  unfolding visit_nodes keyed_nodes
  visit_nodes-lookup g h [] found stats = refl
  visit_nodes-lookup g h (node ∷ nodes) found stats =
      go (key h node) refl (visit_nodes-lookup g h nodes)
    where
      go :
          (r : Result K)
          → key h node ≡ r
          → AtKey g h nodes
          → map_result (lookup g) (visit_nodes fig key h found stats (node ∷ nodes))
            ≡ map_result
                (λ l. after_history fig (is_found (lookup g found)) (lookup g stats) (mine g l))
                (keyed_nodes key h (node ∷ nodes))
      go (ok v) e ih = rw e (
          ih _ _
          ∙ ap (λ f. map_result f (keyed_nodes key h nodes))
              (fun_ext (step_at fig g v node found stats))
          ∙ sym (
              mine_cons fig g v node (is_found (lookup g found)) (lookup g stats)
                (keyed_nodes key h nodes)))
      go (err x) e ih = rw e
      go panics e ih = rw e
      go out_of_rounds e ih = rw e

module _ {H N K S : Type 0} ⦃o : Ord K⦄ (fig : Figures N S) (nodes_of : H → Result (List N))
    (key : H → N → Result K) where
  -- The stats at the key `g`, and what the nodes of `g` add up to.
  abbrev found_at : K → Result (GoMap K S) → Result (Option S)
  found_at g = map_result (lookup g)

  abbrev sum_at : K → Option S → Result (List (List (K × N))) → Result (Option S)
  sum_at g s = map_result (λ ls. after_histories fig s (map (mine g) ls))

  sum_cons :
      (g : K) (s : Option S) (l : List (K × N)) (r : Result (List (List (K × N))))
      → sum_at g s (r >>= λ ls. ok (l ∷ ls)) ≡ sum_at g (after_history fig false s (mine g l)) r
  sum_cons g s l (ok ls) = refl
  sum_cons g s l (err e) = refl
  sum_cons g s l panics = refl
  sum_cons g s l out_of_rounds = refl

  -- The stat of each key is what the nodes of the key add up to, history by history; the
  -- accumulation fails just as the computation of the keys does.
  pub tally-lookup :
      (g : K) (stats : GoMap K S) (hs : List H)
      → found_at g (tally fig nodes_of key stats hs)
        ≡ sum_at g (lookup g stats) (traverse (keyed nodes_of key) hs)
  unfolding tally traverse keyed lookup
  tally-lookup g stats [] = refl
  tally-lookup g stats (h ∷ hs) = by_nodes (nodes_of h) (λ m. tally-lookup g m hs)
    where
      by_nodes :
          (r : Result (List N))
          → ((m : GoMap K S)
              → found_at g (tally fig nodes_of key m hs)
                ≡ sum_at g (lookup g m) (traverse (keyed nodes_of key) hs))
          → found_at g
              (do nodes ← r; m ← visit_nodes fig key h [] stats nodes; tally fig nodes_of key m hs)
            ≡ sum_at g
                (lookup g stats)
                (do l ← r >>= keyed_nodes key h; ls ← traverse (keyed nodes_of key) hs; ok (l ∷ ls))
      by_nodes (ok nodes) ih =
          map-bind (lookup g) (visit_nodes fig key h [] stats nodes) _
          ∙ bind_congr (lookup g) (λ l. after_history fig false (lookup g stats) (mine g l)) _ _
              (visit_nodes fig key h [] stats nodes) (keyed_nodes key h nodes)
              (visit_nodes-lookup fig key g h nodes [] stats)
              (λ m l _ _ e.
                ih m
                ∙ rw e (sym (sum_cons g (lookup g stats) l (traverse (keyed nodes_of key) hs))))
          ∙ sym (map-bind _ (keyed_nodes key h nodes) _)
      by_nodes (err e) ih = refl
      by_nodes panics ih = refl
      by_nodes out_of_rounds ih = refl
