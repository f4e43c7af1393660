-- ===== src/Server/Gather.antt =====
-- The loop in which both queries read the histories of each cluster of the tenant, and note the
-- names of the clusters.
pub mod Laws
pub mod Order
pub mod Found
use cluster_monitor.Prelude.{String, List, [], ◌∷◌, ◌++◌}
use cluster_monitor.Prelude.Order.{string_ord}
use cluster_monitor.Go.Result.{ok, internal}
use cluster_monitor.Go.Exec.{Exec, lift, or_status, ◌>>=◌}
use cluster_monitor.Go.Map.{GoMap, assign}
use cluster_monitor.Store.Rows.{ClusterSnapshotRow}

module _ {S H : Type 0} (list_histories : String → Exec S (List H)) where
  -- `for _, c := range cs`
  unfoldable pub gather_from :
      List H → GoMap String String → List ClusterSnapshotRow → Exec S (List H × GoMap String String)
  gather_from hs names [] = lift (ok (hs, names))
  gather_from hs names (c ∷ cs) = do
    chs ← or_status internal (list_histories c.cluster_id)
    gather_from (hs ++ chs) (assign c.cluster_id c.name names) cs

  unfoldable pub gather : List ClusterSnapshotRow → Exec S (List H × GoMap String String)
  unfolding gather_from
  gather cs = gather_from [] [] cs
