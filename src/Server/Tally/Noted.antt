-- ===== src/Server/Tally/Noted.antt =====
-- The keys that are collected: those of all nodes, and no other.
use mathlib.Core.Path.{fun_ext}
use cluster_monitor.Prelude.{
  ◌≡◌, refl, sym, ap, ◌∙◌, inl, inr, Bool, true, false, ◌||◌, Option, none, some, List, [], ◌∷◌,
  map, arith, Bool-cases,
}
use cluster_monitor.Prelude.Order.{Ord, ◌==◌}
use cluster_monitor.Go.Result.{Result, ok, map_result, map_result_twice, traverse, ◌>>=◌}
use cluster_monitor.Go.Map.{GoMap, keys, lookup}
use cluster_monitor.Go.Keys.{has, is_some, has-keys}
use cluster_monitor.Go.Sort.{place, sort, IsAscending, sort-IsAscending}
use cluster_monitor.Server.Tally.{Figures, visit_nodes, tally, note_nodes, note_keys}
use cluster_monitor.Server.Tally.Groups.{mine, after_history, after_histories, keyed, tally-lookup}
use cluster_monitor.Server.Tally.Keys.{tally-IsUnrepeated}

-- To note a key is to accumulate nothing but `true`.
abbrev flag : (N : Type 0) → Figures N Bool
flag N = record { fresh = true; count = λ b. b; add = λ n b. true }

or_true : (b : Bool) → (b || true) ≡ true
or_true true = refl
or_true false = refl

module _ {K : Type 0} ⦃o : Ord K⦄ where
  abbrev pub occurs_in : {N : Type 0} → K → List (K × N) → Bool
  occurs_in g [] = false
  occurs_in g ((k, n) ∷ l) = k == g || occurs_in g l

  -- Whether a node of some history has the key `g`.
  abbrev pub occurs : {N : Type 0} → K → List (List (K × N)) → Bool
  occurs g [] = false
  occurs g (l ∷ ls) = occurs_in g l || occurs g ls

  has-place : (g k : K) (l : List K) → has g (place k l) ≡ has g (k ∷ l)
  unfolding place
  has-place g k [] = refl
  has-place g k (x ∷ l) = ground (arith, has-place g k l)

  has-sort : (g : K) (l : List K) → has g (sort l) ≡ has g l
  unfolding sort
  has-sort g [] = refl
  has-sort g (k ∷ l) = has-place g k (sort l) ∙ rw (has-sort g l)

module _ {K N : Type 0} ⦃o : Ord K⦄ (g : K) where
  is_some-after_history :
      (s : Option Bool) (l : List (K × N))
      → is_some (after_history (flag N) false s (mine g l)) ≡ (is_some s || occurs_in g l)
  is_some-after_history none [] = refl
  is_some-after_history (some b) [] = refl
  is_some-after_history s ((k, n) ∷ l) = elim (Bool-cases (k == g)) [
    | inl same ↦ rw same (sym (or_true (is_some s)))
    | inr differ ↦ rw differ (is_some-after_history s l)
  ]

  is_some-after_histories :
      (s : Option Bool) (ls : List (List (K × N)))
      → is_some (after_histories (flag N) s (map (mine g) ls)) ≡ (is_some s || occurs g ls)
  is_some-after_histories none [] = refl
  is_some-after_histories (some b) [] = refl
  is_some-after_histories s (l ∷ ls) =
      is_some-after_histories (after_history (flag N) false s (mine g l)) ls
      ∙ ground (arith, is_some-after_history s l)

module _ {H N K : Type 0} ⦃o : Ord K⦄ (key : H → N → Result K) where
  note_nodes-eq-visit_nodes :
      (h : H) (nodes : List N) (found noted : GoMap K Bool)
      → note_nodes key h noted nodes ≡ visit_nodes (flag N) key h found noted nodes
  unfolding note_nodes visit_nodes
  note_nodes-eq-visit_nodes h [] found noted = refl
  note_nodes-eq-visit_nodes h (node ∷ nodes) found noted =
      ap (λ k. key h node >>= k) (fun_ext λ v. note_nodes-eq-visit_nodes h nodes _ _)

module _ {H N K : Type 0} ⦃o : Ord K⦄ (nodes_of : H → Result (List N))
    (key : H → N → Result K) where
  note_keys-eq-tally :
      (hs : List H) (noted : GoMap K Bool)
      → note_keys nodes_of key noted hs ≡ tally (flag N) nodes_of key noted hs
  unfolding note_keys tally
  note_keys-eq-tally [] noted = refl
  note_keys-eq-tally (h ∷ hs) noted =
      ap (λ k. nodes_of h >>= k)
        (fun_ext λ nodes.
          ap (λ m. m >>= λ n. note_keys nodes_of key n hs)
            (note_nodes-eq-visit_nodes key h nodes [] noted)
          ∙ ap (λ k. visit_nodes (flag N) key h [] noted nodes >>= k)
              (fun_ext λ n. note_keys-eq-tally hs n))

  pub sorted_keys-IsAscending :
      (hs : List H) {m : GoMap K Bool}
      → note_keys nodes_of key [] hs ≡ ok m
      → IsAscending (sort (keys m))
  unfolding keys
  sorted_keys-IsAscending hs {m} e =
      sort-IsAscending (keys m)
        (tally-IsUnrepeated (flag N) nodes_of key hs [] (sym (note_keys-eq-tally hs []) ∙ e) tt)

  -- A key is noted exactly when some node has it.
  pub has-note_keys :
      (g : K) (hs : List H)
      → map_result (λ m. has g (sort (keys m))) (note_keys nodes_of key [] hs)
        ≡ map_result (occurs g) (traverse (keyed nodes_of key) hs)
  unfolding lookup
  has-note_keys g hs =
      ap (λ f. map_result f (note_keys nodes_of key [] hs))
        (fun_ext λ m. has-sort g (keys m) ∙ has-keys g m)
      ∙ ap (map_result (λ m. is_some (lookup g m))) (note_keys-eq-tally hs [])
      ∙ sym (map_result_twice is_some (lookup g) (tally (flag N) nodes_of key [] hs))
      ∙ ap (map_result is_some) (tally-lookup (flag N) nodes_of key g [] hs)
      ∙ map_result_twice is_some (λ ls. after_histories (flag N) none (map (mine g) ls))
          (traverse (keyed nodes_of key) hs)
      ∙ ap (λ f. map_result f (traverse (keyed nodes_of key) hs))
          (fun_ext λ ls. is_some-after_histories g none ls)
