-- ===== src/Server/Visible/One.antt =====
-- One snapshot that is sent: the row of its cluster, and the row of its message.
use mathlib.Core.Path.{subst}
use mathlib.Core.Logic.{∥∥₁_map}
use mathlib.Core.List.{Memᴰ, Mem, mem-cons_self, mem-cons_of_mem, mem-append_left, mem-append_right}
use cluster_monitor.Prelude.{
  ◌≡◌, inl, inr, refl, sym, ap, ◌∙◌, String, Bool, true, Option, none, some, List, [], ◌∷◌, keep,
  Bool-cases,
}
use cluster_monitor.Prelude.Order.{◌==◌, ==_refl, eq_of_==, string_ord}
use cluster_monitor.Go.Result.{ok, ok-injective, internal}
use cluster_monitor.Go.Exec.{lift, bind_inversion}
use cluster_monitor.Api.{ClusterSnapshot, cluster_snapshot}
use cluster_monitor.Agent.Loop.{request}
use cluster_monitor.Store.Rows.{ClusterSnapshotRow, ClusterSnapshotHistory}
use cluster_monitor.Store.Database.{Db, IsLawful}
use cluster_monitor.Store.{
  time_now, create_or_update_cluster_snapshot, create_cluster_snapshot_history,
}
use cluster_monitor.Store.Registered.{IsIndexed, Registered, registered, update_entry}
use cluster_monitor.Store.Upsert.{create_or_update-registered}
use cluster_monitor.Server.Auth.{ClusterInfo, extract_cluster_info}
use cluster_monitor.Server.Codec.{Codec}
use cluster_monitor.Server.Gather.Laws.{of_clusters, with_status-ok}
use cluster_monitor.Server.Telemetry.{
  process_cluster_snapshot, process, process_all, accept, send_cluster_telemetry,
}
use cluster_monitor.Server.Telemetry.Adds.{Decode}

mem-keepᴰ :
    {A : Type 0} (p : A → Bool) {x : A} {xs : List A} → p x ≡ true → Memᴰ x xs → Memᴰ x (keep p xs)
mem-keepᴰ p e (Memᴰ.head q) = rw (← q) (rw e (Memᴰ.head refl))
mem-keepᴰ p {xs = y ∷ ys} e (Memᴰ.tail m) = elim (Bool-cases (p y)) [
  | inl kept ↦ rw kept (Memᴰ.tail (mem-keepᴰ p e m))
  | inr left ↦ rw left (mem-keepᴰ p e m)
]

pub mem-keep :
    {A : Type 0} (p : A → Bool) {x : A} {xs : List A} → p x ≡ true → Mem x xs → Mem x (keep p xs)
mem-keep p e m = ∥∥₁_map m (mem-keepᴰ p e)

pub mem-of_clustersᴰ :
    {H : Type 0} (f : String → List H) {x : H} {c : ClusterSnapshotRow}
    {cs : List ClusterSnapshotRow}
    → Mem x (f c.cluster_id)
    → Memᴰ c cs
    → Mem x (of_clusters f cs)
mem-of_clustersᴰ f n (Memᴰ.head q) = rw (← q) (mem-append_left _ n)
mem-of_clustersᴰ f n (Memᴰ.tail {x = d} m) =
    mem-append_right (f d.cluster_id) (mem-of_clustersᴰ f n m)

tenant_of : Option Registered → String
tenant_of none = ""
tenant_of (some e) = e.tenant

-- A registered cluster has a row, with its tenant.
pub row_of_registered :
    (id : String) (rows : List ClusterSnapshotRow) (e : Registered)
    → registered id rows ≡ some e
    → (r : ClusterSnapshotRow) × Mem r rows × (r.cluster_id ≡ id) × (r.tenant_id ≡ e.tenant)
unfolding tenant_of
row_of_registered id [] e h = cc
row_of_registered id (r ∷ rows) e h = elim (Bool-cases (r.cluster_id == id)) [
  | inl same ↦
      let first : some (record { name = r.name; tenant = r.tenant_id }) ≡ registered id (r ∷ rows) =
        rw same refl in
      (r, mem-cons_self, eq_of_== r.cluster_id id same, ap tenant_of (first ∙ h))
  | inr other ↦
      let (q, m, c, t) = row_of_registered id rows e (sym (rw other refl) ∙ h) in
      (q, mem-cons_of_mem r m, c, t)
]

-- the row of the table of clusters that a snapshot of the caller sends
abbrev pub row_of : ClusterInfo → ClusterSnapshotRow
row_of info = record {
  id = 0;
  cluster_id = info.cluster_id;
  name = info.cluster_name;
  tenant_id = info.tenant_id;
}

-- The one row that decodes to one snapshot.
pub the_row :
    {F : Type 0} (codec : Codec F) (id : String) (m : ClusterSnapshot)
    (added : List ClusterSnapshotHistory)
    → Decode codec id added (m ∷ [])
    → (row : ClusterSnapshotHistory) × (added ≡ row ∷ [])
      × (row.cluster_id ≡ id)
      × (codec.unmarshal_snapshot row.message ≡ ok m)
the_row codec id m [] d = absurd d
the_row codec id m (h ∷ []) (c, e, _) = (h, refl, c, e)
the_row codec id m (h ∷ k ∷ hs) (c, e, d) = absurd d

module _ (db : Db) (lawful : IsLawful db) {F : Type 0} (codec : Codec F) (info : ClusterInfo)
    (m : ClusterSnapshot) where
  pub process_cluster_snapshot-registered :
      (s : db.State)
      → IsIndexed (db.tables s).snapshots
      → (process_cluster_snapshot db codec info m s).0 ≡ ok tt
      → registered info.cluster_id
          (db.tables (process_cluster_snapshot db codec info m s).1).snapshots
        ≡ some (update_entry (row_of info) (registered info.cluster_id (db.tables s).snapshots))
  unfolding process_cluster_snapshot create_cluster_snapshot_history
  process_cluster_snapshot-registered s x h =
      let first = create_or_update_cluster_snapshot db (row_of info) in
      let (_, e1, h1, t1) = bind_inversion first _ s h in
      let s1 = (first s).1 in
      let (msg, e2, h2, t2) = bind_inversion (lift (codec.marshal_snapshot m)) _ s1 h1 in
      let (now, e3, h3, t3) = bind_inversion (time_now db) _ s1 h2 in
      let s2 = (db.now s1).1 in
      let history : ClusterSnapshotHistory = record {
        id = 0;
        cluster_id = info.cluster_id;
        message = msg;
        history_created_at = now;
      } in
      let (k, stored) = lawful.save_snapshot_history_ok history s2 h3 refl in
      let updated = create_or_update-registered db lawful (row_of info) s info.cluster_id x e1 in
      rw (t1 ∙ t2 ∙ t3)
        (rw stored (rw (lawful.now_frame s1) (updated ∙ rw (==_refl info.cluster_id) refl)))

  -- A request with one snapshot does what that snapshot does.
  pub send_one :
      (enable_auth : Bool) (extracted : Option ClusterInfo) (s : db.State)
      → extract_cluster_info enable_auth extracted ≡ ok info
      → (send_cluster_telemetry db codec enable_auth extracted (request (cluster_snapshot m)) s).0
        ≡ ok tt
      → ((process_cluster_snapshot db codec info m s).0 ≡ ok tt)
        × ((send_cluster_telemetry db codec enable_auth extracted
              (request (cluster_snapshot m))
              s).1
            ≡ (process_cluster_snapshot db codec info m s).1)
  unfolding send_cluster_telemetry accept process_all process
  send_one enable_auth extracted s e h =
      let (info', e', h', t') =
        bind_inversion (lift (extract_cluster_info enable_auth extracted)) _ s h in
      let same : info' ≡ info = ok-injective (sym e' ∙ e) in
      let (_, done, _, t) = bind_inversion (process db codec info' (cluster_snapshot m)) _ s h' in
      subst
        (λ i.
          ((process_cluster_snapshot db codec i m s).0 ≡ ok tt)
          × ((send_cluster_telemetry db codec enable_auth extracted (request (cluster_snapshot m))
                s).1
              ≡ (process_cluster_snapshot db codec i m s).1))
        same (with_status-ok internal _ done, t' ∙ t)
