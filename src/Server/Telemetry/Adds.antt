-- ===== src/Server/Telemetry/Adds.antt =====
-- Rows of payloads that are added to the histories, and messages that are decoded from them.
use mathlib.Core.Path.{subst}
use mathlib.Core.List.{append_assoc, append-nil}
use cluster_monitor.Prelude.{◌≡◌, refl, sym, ap, ◌∙◌, String, List, [], ◌∷◌, ◌++◌}
use cluster_monitor.Go.Result.{ok}
use cluster_monitor.Api.{
  ClusterSnapshot, GpuTelemetry, Payload, cluster_snapshot, gpu_telemetry, unset,
}
use cluster_monitor.Store.Rows.{ClusterSnapshotHistory, GpuTelemetryHistory}
use cluster_monitor.Store.Database.{Tables}
use cluster_monitor.Store.Registered.{IsIndexed}
use cluster_monitor.Store.Invariant.{Kept}
use cluster_monitor.Server.Codec.{Codec}

-- The snapshots among the payloads, and the GPU telemetry.
abbrev pub snapshots_in : {F : Type 0} → List (Payload F) → List ClusterSnapshot
snapshots_in [] = []
snapshots_in (cluster_snapshot m ∷ ps) = m ∷ snapshots_in ps
snapshots_in (gpu_telemetry m ∷ ps) = snapshots_in ps
snapshots_in (unset ∷ ps) = snapshots_in ps

abbrev pub telemetry_in : {F : Type 0} → List (Payload F) → List (GpuTelemetry F)
telemetry_in [] = []
telemetry_in (cluster_snapshot m ∷ ps) = telemetry_in ps
telemetry_in (gpu_telemetry m ∷ ps) = m ∷ telemetry_in ps
telemetry_in (unset ∷ ps) = telemetry_in ps

snapshots_in-append :
    {F : Type 0} (ps qs : List (Payload F))
    → snapshots_in (ps ++ qs) ≡ snapshots_in ps ++ snapshots_in qs
snapshots_in-append [] qs = refl
snapshots_in-append (cluster_snapshot m ∷ ps) qs = ap (λ l. m ∷ l) (snapshots_in-append ps qs)
snapshots_in-append (gpu_telemetry m ∷ ps) qs = snapshots_in-append ps qs
snapshots_in-append (unset ∷ ps) qs = snapshots_in-append ps qs

telemetry_in-append :
    {F : Type 0} (ps qs : List (Payload F))
    → telemetry_in (ps ++ qs) ≡ telemetry_in ps ++ telemetry_in qs
telemetry_in-append [] qs = refl
telemetry_in-append (cluster_snapshot m ∷ ps) qs = telemetry_in-append ps qs
telemetry_in-append (gpu_telemetry m ∷ ps) qs = ap (λ l. m ∷ l) (telemetry_in-append ps qs)
telemetry_in-append (unset ∷ ps) qs = telemetry_in-append ps qs

module _ {F : Type 0} (codec : Codec F) (cluster_id : String) where
  -- The rows belong to the cluster, and their messages decode to the given ones, in order.
  abbrev pub Decode : List ClusterSnapshotHistory → List ClusterSnapshot → Type 0
  Decode [] [] = Unit
  Decode [] (m ∷ ms) = ⊥
  Decode (h ∷ hs) [] = ⊥
  Decode (h ∷ hs) (m ∷ ms) =
      (h.cluster_id ≡ cluster_id) × (codec.unmarshal_snapshot h.message ≡ ok m) × Decode hs ms

  abbrev pub DecodeTelemetry : List GpuTelemetryHistory → List (GpuTelemetry F) → Type 0
  DecodeTelemetry [] [] = Unit
  DecodeTelemetry [] (m ∷ ms) = ⊥
  DecodeTelemetry (h ∷ hs) [] = ⊥
  DecodeTelemetry (h ∷ hs) (m ∷ ms) =
      (h.cluster_id ≡ cluster_id)
      × (codec.unmarshal_telemetry h.message ≡ ok m)
      × DecodeTelemetry hs ms

  -- From the tables `t` to the tables `u`, rows of the payloads are added to both histories.
  pub record Adds (payloads : List (Payload F)) (t u : Tables) : Type 0 where
    pub added : List ClusterSnapshotHistory
    pub added_telemetry : List GpuTelemetryHistory
    pub histories : u.snapshot_histories ≡ t.snapshot_histories ++ added
    pub telemetry : u.telemetry_histories ≡ t.telemetry_histories ++ added_telemetry
    pub decode : Decode added (snapshots_in payloads)
    pub decode_telemetry : DecodeTelemetry added_telemetry (telemetry_in payloads)

  Decode-append :
      (hs hs' : List ClusterSnapshotHistory) (ms ms' : List ClusterSnapshot)
      → Decode hs ms
      → Decode hs' ms'
      → Decode (hs ++ hs') (ms ++ ms')
  Decode-append [] hs' [] ms' d d' = d'
  Decode-append [] hs' (m ∷ ms) ms' d d' = absurd d
  Decode-append (h ∷ hs) hs' [] ms' d d' = absurd d
  Decode-append (h ∷ hs) hs' (m ∷ ms) ms' (i, k, d) d' = (i, k, Decode-append hs hs' ms ms' d d')

  DecodeTelemetry-append :
      (hs hs' : List GpuTelemetryHistory) (ms ms' : List (GpuTelemetry F))
      → DecodeTelemetry hs ms
      → DecodeTelemetry hs' ms'
      → DecodeTelemetry (hs ++ hs') (ms ++ ms')
  DecodeTelemetry-append [] hs' [] ms' d d' = d'
  DecodeTelemetry-append [] hs' (m ∷ ms) ms' d d' = absurd d
  DecodeTelemetry-append (h ∷ hs) hs' [] ms' d d' = absurd d
  DecodeTelemetry-append (h ∷ hs) hs' (m ∷ ms) ms' (i, k, d) d' =
      (i, k, DecodeTelemetry-append hs hs' ms ms' d d')

  pub Adds-append :
      (ps qs : List (Payload F)) (t u v : Tables) → Adds ps t u → Adds qs u v → Adds (ps ++ qs) t v
  Adds-append ps qs t u v a b = record {
    added = a.added ++ b.added;
    added_telemetry = a.added_telemetry ++ b.added_telemetry;
    histories =
        b.histories
        ∙ ap (λ l. l ++ b.added) a.histories
        ∙ append_assoc t.snapshot_histories a.added b.added;
    telemetry =
        b.telemetry
        ∙ ap (λ l. l ++ b.added_telemetry) a.telemetry
        ∙ append_assoc t.telemetry_histories a.added_telemetry b.added_telemetry;
    decode =
        subst (Decode (a.added ++ b.added)) (sym (snapshots_in-append ps qs))
          (Decode-append a.added b.added (snapshots_in ps) (snapshots_in qs) a.decode b.decode);
    decode_telemetry =
        subst (DecodeTelemetry (a.added_telemetry ++ b.added_telemetry))
          (sym (telemetry_in-append ps qs))
          (DecodeTelemetry-append a.added_telemetry b.added_telemetry (telemetry_in ps)
            (telemetry_in qs) a.decode_telemetry b.decode_telemetry);
  }

  -- The histories alone matter.
  pub Adds-same :
      (ps : List (Payload F)) (t u v : Tables)
      → Adds ps t u
      → v.snapshot_histories ≡ u.snapshot_histories
      → v.telemetry_histories ≡ u.telemetry_histories
      → Adds ps t v
  Adds-same ps t u v a h k = record {
    added = a.added;
    added_telemetry = a.added_telemetry;
    histories = h ∙ a.histories;
    telemetry = k ∙ a.telemetry;
    decode = a.decode;
    decode_telemetry = a.decode_telemetry;
  }

  pub Adds-cons :
      (p : Payload F) (ps : List (Payload F)) (t u v : Tables)
      → Adds (p ∷ []) t u
      → Adds ps u v
      → Adds (p ∷ ps) t v
  Adds-cons p ps t u v a b = Adds-append (p ∷ []) ps t u v a b

module _ {F : Type 0} (codec : Codec F) (cluster_id : String) where
  pub snapshot_stored :
      (m : ClusterSnapshot) (row : ClusterSnapshotHistory) (t u v : Tables)
      → Kept t u
      → v ≡ record u { snapshot_histories = u.snapshot_histories ++ row ∷ [] }
      → row.cluster_id ≡ cluster_id
      → codec.unmarshal_snapshot row.message ≡ ok m
      → Adds codec cluster_id (cluster_snapshot m ∷ []) t v × IsIndexed v.snapshots
  snapshot_stored m row t u v (h, k, x) e i d = (
    record {
      added = row ∷ [];
      added_telemetry = [];
      histories = ap (λ t. t.snapshot_histories) e ∙ ap (λ l. l ++ row ∷ []) h;
      telemetry = ap (λ t. t.telemetry_histories) e ∙ k ∙ sym (append-nil t.telemetry_histories);
      decode = (i, d, tt);
      decode_telemetry = tt;
    },
    subst (λ t. IsIndexed t.snapshots) (sym e) x,
  )

  pub telemetry_stored :
      (m : GpuTelemetry F) (row : GpuTelemetryHistory) (t u v : Tables)
      → Kept t u
      → v ≡ record u { telemetry_histories = u.telemetry_histories ++ row ∷ [] }
      → row.cluster_id ≡ cluster_id
      → codec.unmarshal_telemetry row.message ≡ ok m
      → Adds codec cluster_id (gpu_telemetry m ∷ []) t v × IsIndexed v.snapshots
  telemetry_stored m row t u v (h, k, x) e i d = (
    record {
      added = [];
      added_telemetry = row ∷ [];
      histories = ap (λ t. t.snapshot_histories) e ∙ h ∙ sym (append-nil t.snapshot_histories);
      telemetry = ap (λ t. t.telemetry_histories) e ∙ ap (λ l. l ++ row ∷ []) k;
      decode = tt;
      decode_telemetry = (i, d, tt);
    },
    subst (λ t. IsIndexed t.snapshots) (sym e) x,
  )
