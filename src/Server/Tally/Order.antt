-- ===== src/Server/Tally/Order.antt =====
-- Where adding figures commutes, what the histories add up to does not depend on their order.
use mathlib.Core.List.{Permᴰ}
use cluster_monitor.Prelude.{◌≡◌, refl, sym, ap, ◌∙◌, false, Option, some, List, [], ◌∷◌, foldl}
use cluster_monitor.Server.Tally.{Figures, or_fresh}
use cluster_monitor.Server.Tally.Groups.{after_history, after_histories}

-- The figures of nodes, and the count of a history, may be added in any order.
pub record Commutes {N S : Type 0} (fig : Figures N S) : Type 0 where
  pub add_add : (n m : N) (s : S) → fig.add n (fig.add m s) ≡ fig.add m (fig.add n s)
  pub count_add : (n : N) (s : S) → fig.count (fig.add n s) ≡ fig.add n (fig.count s)

module _ {N S : Type 0} (fig : Figures N S) (comm : Commutes fig) where
  abbrev add_all : List N → S → S
  add_all ns s = foldl (λ t m. fig.add m t) s ns

  add_all-add : (n : N) (ns : List N) (s : S) → add_all ns (fig.add n s) ≡ fig.add n (add_all ns s)
  add_all-add n [] s = refl
  add_all-add n (m ∷ ns) s = ap (add_all ns) (comm.add_add m n s) ∙ add_all-add n ns (fig.add m s)

  add_all-count : (ns : List N) (s : S) → add_all ns (fig.count s) ≡ fig.count (add_all ns s)
  add_all-count [] s = refl
  add_all-count (n ∷ ns) s =
      ap (add_all ns) (sym (comm.count_add n s)) ∙ add_all-count ns (fig.add n s)

  add_all_comm : (ns ms : List N) (s : S) → add_all ns (add_all ms s) ≡ add_all ms (add_all ns s)
  add_all_comm ns [] s = refl
  add_all_comm ns (m ∷ ms) s =
      add_all_comm ns ms (fig.add m s) ∙ ap (add_all ms) (add_all-add m ns s)

  -- Two histories with nodes of the key.
  both_comm :
      (ns ms : List N) (s : S)
      → add_all ns (fig.count (add_all ms (fig.count s)))
        ≡ add_all ms (fig.count (add_all ns (fig.count s)))
  both_comm ns ms s =
      add_all-count ns (add_all ms (fig.count s))
      ∙ ap fig.count (add_all_comm ns ms (fig.count s))
      ∙ sym (add_all-count ms (add_all ns (fig.count s)))

  after_history_comm :
      (ns ms : List N) (s : Option S)
      → after_history fig false (after_history fig false s ns) ms
        ≡ after_history fig false (after_history fig false s ms) ns
  after_history_comm [] ms s = refl
  after_history_comm (n ∷ ns) [] s = refl
  after_history_comm (n ∷ ns) (m ∷ ms) s = ap some (both_comm (m ∷ ms) (n ∷ ns) (or_fresh fig s))

  pub after_histories-permᴰ :
      (s : Option S) {ls ms : List (List N)}
      → Permᴰ ls ms
      → after_histories fig s ls ≡ after_histories fig s ms
  after_histories-permᴰ s Permᴰ.nil = refl
  after_histories-permᴰ s (Permᴰ.cons {b = b} e p) =
      rw e (after_histories-permᴰ (after_history fig false s b) p)
  after_histories-permᴰ s (Permᴰ.swap {a' = a'} {b' = b'} {l = l} e f) =
      rw e (rw f (ap (λ t. after_histories fig t l) (after_history_comm b' a' s)))
  after_histories-permᴰ s (Permᴰ.trans p q) = after_histories-permᴰ s p ∙ after_histories-permᴰ s q
