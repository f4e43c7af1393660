-- ===== src/Store/Races/Relied.antt =====
-- What a request relies on while others write, and how the table of clusters grows.
use mathlib.Core.List.{Memᴰ, append-nil, append_assoc}
use mathlib.Core.List.Memᴰ
use cluster_monitor.Prelude.{◌≡◌, ◌≢◌, refl, sym, ap, ◌∙◌, List, [], ◌++◌}
use cluster_monitor.Prelude.Order.{string_ord}
use cluster_monitor.Go.Result.{Result, ok, err, panics, out_of_rounds}
use cluster_monitor.Store.Rows.{ClusterSnapshotRow}
use cluster_monitor.Store.Races.{Pc, arriving, answered, returned}
use cluster_monitor.Store.Races.Keys.{Key, key, keys_of}

-- What a request can rely on: the row that it was answered is still listed with its key, though
-- maybe under another name, and behind its success its cluster is.
abbrev pub Served : Pc → List ClusterSnapshotRow → Type 0
Served (arriving c) rows = Unit
Served (answered c (ok e)) rows = Memᴰ (key e) (keys_of rows) × (e.cluster_id ≡ c.cluster_id)
Served (answered c (err x)) rows = Unit
Served (answered c panics) rows = Unit
Served (answered c out_of_rounds) rows = Unit
Served (returned c (ok u)) rows = (k : Key) × Memᴰ k (keys_of rows) × (k.1 ≡ c.cluster_id)
Served (returned c (err x)) rows = Unit
Served (returned c panics) rows = Unit
Served (returned c out_of_rounds) rows = Unit

pub Served-failed :
    (c : ClusterSnapshotRow) (r : Result (Unit {0})) (rows : List ClusterSnapshotRow)
    → r ≢ ok tt
    → Served (returned c r) rows
Served-failed c (ok tt) rows h = absurd (h refl)
Served-failed c (err x) rows h = tt
Served-failed c panics rows h = tt
Served-failed c out_of_rounds rows h = tt

pub Served-done :
    (c : ClusterSnapshotRow) (r : Result (Unit {0})) (k : Key) (rows : List ClusterSnapshotRow)
    → r ≡ ok tt
    → Memᴰ k (keys_of rows)
    → k.1 ≡ c.cluster_id
    → Served (returned c r) rows
Served-done c (ok tt) k rows h m e = (k, m, e)
Served-done c (err x) k rows h m e = cc
Served-done c panics k rows h m e = cc
Served-done c out_of_rounds k rows h m e = cc

-- The keys of `rows` are listed in `more` too.
abbrev pub Grows : List ClusterSnapshotRow → List ClusterSnapshotRow → Type 0
Grows rows more = (new : List Key) × (keys_of more ≡ keys_of rows ++ new)

pub Grows-same : (rows : List ClusterSnapshotRow) → Grows rows rows
Grows-same rows = ([], sym (append-nil (keys_of rows)))

pub Grows-trans :
    (rows more most : List ClusterSnapshotRow) → Grows rows more → Grows more most → Grows rows most
Grows-trans rows more most (new, e) (newer, f) =
    (new ++ newer, f ∙ ap (λ l. l ++ newer) e ∙ append_assoc (keys_of rows) new newer)

listed-Grows :
    {k : Key} (rows more : List ClusterSnapshotRow)
    → Grows rows more
    → Memᴰ k (keys_of rows)
    → Memᴰ k (keys_of more)
listed-Grows rows more (new, e) m = rw e (Memᴰ.append_left new m)

pub Served-Grows :
    (pc : Pc) (rows more : List ClusterSnapshotRow)
    → Grows rows more
    → Served pc rows
    → Served pc more
Served-Grows (arriving c) rows more g v = tt
Served-Grows (answered c (ok e)) rows more g (m, h) = (listed-Grows rows more g m, h)
Served-Grows (answered c (err x)) rows more g v = tt
Served-Grows (answered c panics) rows more g v = tt
Served-Grows (answered c out_of_rounds) rows more g v = tt
Served-Grows (returned c (ok u)) rows more g (k, m, h) = (k, listed-Grows rows more g m, h)
Served-Grows (returned c (err x)) rows more g v = tt
Served-Grows (returned c panics) rows more g v = tt
Served-Grows (returned c out_of_rounds) rows more g v = tt
