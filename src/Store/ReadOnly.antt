-- ===== src/Store/ReadOnly.antt =====
-- Actions that leave the tables as they are.
use cluster_monitor.Prelude.{◌≡◌, refl, ◌∙◌}
use cluster_monitor.Go.Result.{Result, ok, err, panics, out_of_rounds}
use cluster_monitor.Go.Exec.{Exec, continue, ◌>>=◌}
use cluster_monitor.Store.Database.{Db}

module _ (db : Db) where
  abbrev pub ReadOnly : {A : Type 0} → Exec db.State A → Type 0
  ReadOnly m = (s : db.State) → db.tables (m s).1 ≡ db.tables s

  module _ {A B : Type 0} where
    continue-ReadOnly :
        (r : Result A) (f : A → Exec db.State B)
        → ((a : A) → ReadOnly (f a))
        → ReadOnly (continue r f)
    continue-ReadOnly (ok a) f h s = h a s
    continue-ReadOnly (err e) f h s = refl
    continue-ReadOnly panics f h s = refl
    continue-ReadOnly out_of_rounds f h s = refl

    pub bind-ReadOnly :
        (m : Exec db.State A) (f : A → Exec db.State B)
        → ReadOnly m
        → ((a : A) → ReadOnly (f a))
        → ReadOnly (m >>= f)
    unfolding ◌>>=◌
    bind-ReadOnly m f hm h s = continue-ReadOnly (m s).0 f h (m s).1 ∙ hm s
