-- ===== src/Tests/Samples.antt =====
-- Inputs that the tests share: a codec that reads the first byte of a message, and two clusters.
use cluster_monitor.Prelude.{ℕ, refl, arith, ◌+◌, String, some, List, [], ◌∷◌}
use cluster_monitor.Prelude.Int.{pos}
use cluster_monitor.Go.Result.{Result, ok, err, codec_error}
use cluster_monitor.Go.Time.{Time}
use cluster_monitor.Go.Map.{GoMap}
use cluster_monitor.Api.{SnapshotNode, ClusterSnapshot}
use cluster_monitor.Store.Rows.{Bytes, ClusterSnapshotRow, ClusterSnapshotHistory}
use cluster_monitor.Store.Database.{Tables}
use cluster_monitor.Store.Registered.{IsIndexed}

abbrev pub node : String → ℕ → String → SnapshotNode
node name gpus product = record {
  name = name;
  gpu_capacity = pos gpus;
  memory_capacity = pos 4294967296;
  nvidia_attributes = some (record { product = product });
  gpu_occupancy = pos 1;
  pod_count = pos 2;
}

-- A message of one byte `n` has `n` nodes, with 8 GPUs each.
abbrev pub nodes_for : ℕ → List SnapshotNode
nodes_for ℕ.zero = []
nodes_for (ℕ.suc n) = node "n" 8 "A100" ∷ nodes_for n

abbrev pub unmarshal : Bytes → Result ClusterSnapshot
unmarshal [] = err codec_error
unmarshal (b ∷ bs) = ok (record { nodes = nodes_for b })

-- The instant `s` seconds after 2024-01-01 00:00.
abbrev pub moment : ℕ → Time
moment s = record { sec = pos (63839664000 + s); nsec = 0 }

abbrev pub history : String → ℕ → ℕ → ClusterSnapshotHistory
history cluster_id nodes s = record {
  id = 1;
  cluster_id = cluster_id;
  message = nodes ∷ [];
  history_created_at = moment s;
}

abbrev pub names : GoMap String String
names = ("c1", "east") ∷ ("c2", "west") ∷ []

abbrev pub row : ℕ → String → String → String → ClusterSnapshotRow
row id cluster_id name tenant_id = record {
  id = id;
  cluster_id = cluster_id;
  name = name;
  tenant_id = tenant_id;
}

-- Two clusters of the tenant `t1`, with a snapshot each.
abbrev pub tables : Tables
tables = record {
  snapshots = row 1 "c1" "east" "t1" ∷ row 2 "c2" "west" "t1" ∷ [];
  snapshot_histories = history "c1" 2 10 ∷ history "c2" 4 20 ∷ [];
  telemetry_histories = [];
}

pub tables-IsIndexed : IsIndexed tables.snapshots
tables-IsIndexed = (omega arith, (refl, refl, tt), (omega arith, tt, tt))
