-- ===== src/Agent/Telemetry/Hosts.antt =====
-- The hosts that are noted, and the entries of hosts in another order.
use mathlib.Core.List.Perm
use mathlib.Core.List.{Perm, Permᴰ}
use cluster_monitor.Prelude.{
  ◌≡◌, refl, ap, ◌∙◌, String, Bool, true, false, ◌||◌, Option, none, some, List, [], ◌∷◌,
}
use cluster_monitor.Prelude.Order.{◌==◌, string_ord}
use cluster_monitor.Go.Float.{Float64}
use cluster_monitor.Go.Map.{GoMap, keys, lookup, assign, keys-assign-IsUnrepeated}
use cluster_monitor.Go.Keys.{has, has-keys-assign}
use cluster_monitor.Go.Sort.{IsUnrepeated}
use cluster_monitor.Api.{GpuNode}
use cluster_monitor.Agent.Kube.{Node}
use cluster_monitor.Agent.Telemetry.{
  Samples, telemetry_of, telemetry_at, telemetry_nodes, note_hosts,
}

note_hosts-IsUnrepeated :
    (hs : List String) (m : GoMap String (Unit {0}))
    → IsUnrepeated (keys m)
    → IsUnrepeated (keys (note_hosts hs m))
unfolding note_hosts
note_hosts-IsUnrepeated [] m u = u
note_hosts-IsUnrepeated (h ∷ hs) m u =
    note_hosts-IsUnrepeated hs (assign h tt m) (keys-assign-IsUnrepeated h tt m u)

or_swap : (a b c : Bool) → (a || (b || c)) ≡ ((b || a) || c)
or_swap true true c = refl
or_swap true false c = refl
or_swap false true c = refl
or_swap false false c = refl

or_last : (a b : Bool) → (b || (a || false)) ≡ (a || b)
or_last true true = refl
or_last true false = refl
or_last false true = refl
or_last false false = refl

note_hosts-has :
    (g : String) (hs : List String) (m : GoMap String (Unit {0}))
    → has g (keys (note_hosts hs m)) ≡ (has g hs || has g (keys m))
unfolding note_hosts
note_hosts-has g [] m = refl
note_hosts-has g (h ∷ hs) m =
    note_hosts-has g hs (assign h tt m)
    ∙ ap (λ b. has g hs || b) (has-keys-assign g h tt m)
    ∙ or_swap (has g hs) (h == g) (has g (keys m))

module _ {A : Type 0} (util mem : GoMap String A) where
  -- The hosts that are noted are those of either map, each once.
  pub noted_hosts-IsUnrepeated :
      IsUnrepeated (keys (note_hosts (keys mem) (note_hosts (keys util) [])))
  noted_hosts-IsUnrepeated =
      note_hosts-IsUnrepeated (keys mem) (note_hosts (keys util) [])
        (note_hosts-IsUnrepeated (keys util) [] tt)

  pub noted_hosts-has :
      (g : String)
      → has g (keys (note_hosts (keys mem) (note_hosts (keys util) [])))
        ≡ (has g (keys util) || has g (keys mem))
  noted_hosts-has g =
      note_hosts-has g (keys mem) (note_hosts (keys util) [])
      ∙ ap (λ b. has g (keys mem) || b) (note_hosts-has g (keys util) [])
      ∙ or_last (has g (keys util)) (has g (keys mem))

module _ {F : Type 0} (float : Float64 F) {Q : Type 0}
    (util mem : GoMap String (Samples float.Carrier)) (nodes : GoMap String (Node Q)) where
  telemetry_at-perm :
      (h : String) (o : Option (Node Q)) (l m : List (GpuNode F))
      → Perm l m
      → Perm (telemetry_at float util mem h o l) (telemetry_at float util mem h o m)
  telemetry_at-perm h none l m p = p
  telemetry_at-perm h (some node) l m p = Perm.cons (telemetry_of float util mem h node) p

  telemetry_at-swap :
      (h k : String) (o p : Option (Node Q)) (l : List (GpuNode F))
      → Perm
          (telemetry_at float util mem h o (telemetry_at float util mem k p l))
          (telemetry_at float util mem k p (telemetry_at float util mem h o l))
  telemetry_at-swap h k none p l = Perm.rfl
  telemetry_at-swap h k (some n) none l = Perm.rfl
  telemetry_at-swap h k (some n) (some m) l = Perm.swap _ _ l

  pub telemetry_nodes-permᴰ :
      {l m : List String}
      → Permᴰ l m
      → Perm (telemetry_nodes float util mem nodes l) (telemetry_nodes float util mem nodes m)
  unfolding telemetry_nodes
  telemetry_nodes-permᴰ Permᴰ.nil = Perm.rfl
  telemetry_nodes-permᴰ (Permᴰ.cons {b = b} e p) =
      rw e (telemetry_at-perm b (lookup b nodes) _ _ (telemetry_nodes-permᴰ p))
  telemetry_nodes-permᴰ (Permᴰ.swap {a' = a'} {b' = b'} {l = l} e f) =
      rw e (rw f (telemetry_at-swap b' a' (lookup b' nodes) (lookup a' nodes) _))
  telemetry_nodes-permᴰ (Permᴰ.trans p q) =
      Perm.trans (telemetry_nodes-permᴰ p) (telemetry_nodes-permᴰ q)
