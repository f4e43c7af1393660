-- ===== src/Pipeline/Own.antt =====
-- The rows of one cluster among those of all.
use mathlib.Core.List.{append-nil}
use cluster_monitor.Prelude.{
  ◌≡◌, ◌≢◌, refl, sym, ap, ◌∙◌, inl, inr, String, true, false, List, [], ◌∷◌, ◌++◌, keep,
  keep-append, Bool-cases,
}
use cluster_monitor.Prelude.Order.{◌==◌, ==_refl, eq_of_==, string_ord}
use cluster_monitor.Api.{ClusterSnapshot, GpuTelemetry, Payload}
use cluster_monitor.Store.Rows.{ClusterSnapshotHistory, GpuTelemetryHistory}
use cluster_monitor.Store.Database.{Tables}
use cluster_monitor.Server.Codec.{Codec}
use cluster_monitor.Server.Telemetry.Adds.{
  Adds, Decode, DecodeTelemetry, snapshots_in, telemetry_in,
}

-- The tables, with the histories of one cluster alone.
abbrev pub own : String → Tables → Tables
own id t = record t {
  snapshot_histories = keep (λ h. h.cluster_id == id) t.snapshot_histories;
  telemetry_histories = keep (λ h. h.cluster_id == id) t.telemetry_histories;
}

-- The test for a row of another cluster.
differs : (id other : String) → other ≢ id → (other == id) ≡ false
differs id other n = elim (Bool-cases (other == id)) [
  | inl same ↦ absurd (n (eq_of_== other id same))
  | inr differ ↦ differ
]

module _ {F : Type 0} (codec : Codec F) (id : String) where
  keep-Decode :
      (hs : List ClusterSnapshotHistory) (ms : List ClusterSnapshot)
      → Decode codec id hs ms
      → keep (λ h. h.cluster_id == id) hs ≡ hs
  keep-Decode [] ms d = refl
  keep-Decode (h ∷ hs) [] d = absurd d
  keep-Decode (h ∷ hs) (m ∷ ms) (c, e, d) =
      let kept : (h.cluster_id == id) ≡ true = rw c (==_refl id) in
      rw kept (ap (λ l. h ∷ l) (keep-Decode hs ms d))

  keep-DecodeTelemetry :
      (hs : List GpuTelemetryHistory) (ms : List (GpuTelemetry F))
      → DecodeTelemetry codec id hs ms
      → keep (λ h. h.cluster_id == id) hs ≡ hs
  keep-DecodeTelemetry [] ms d = refl
  keep-DecodeTelemetry (h ∷ hs) [] d = absurd d
  keep-DecodeTelemetry (h ∷ hs) (m ∷ ms) (c, e, d) =
      let kept : (h.cluster_id == id) ≡ true = rw c (==_refl id) in
      rw kept (ap (λ l. h ∷ l) (keep-DecodeTelemetry hs ms d))

  -- What is added for a cluster is added to its own rows.
  pub own-Adds :
      (ps : List (Payload F)) (t u : Tables)
      → Adds codec id ps t u
      → Adds codec id ps (own id t) (own id u)
  own-Adds ps t u a = record {
    added = a.added;
    added_telemetry = a.added_telemetry;
    histories =
        ap (keep (λ h. h.cluster_id == id)) a.histories
        ∙ keep-append _ t.snapshot_histories a.added
        ∙ ap (λ l. keep (λ h. h.cluster_id == id) t.snapshot_histories ++ l)
            (keep-Decode a.added (snapshots_in ps) a.decode);
    telemetry =
        ap (keep (λ h. h.cluster_id == id)) a.telemetry
        ∙ keep-append _ t.telemetry_histories a.added_telemetry
        ∙ ap (λ l. keep (λ h. h.cluster_id == id) t.telemetry_histories ++ l)
            (keep-DecodeTelemetry a.added_telemetry (telemetry_in ps) a.decode_telemetry);
    decode = a.decode;
    decode_telemetry = a.decode_telemetry;
  }

  module _ (other : String) (n : other ≢ id) where
    skip-Decode :
        (hs : List ClusterSnapshotHistory) (ms : List ClusterSnapshot)
        → Decode codec other hs ms
        → keep (λ h. h.cluster_id == id) hs ≡ []
    skip-Decode [] ms d = refl
    skip-Decode (h ∷ hs) [] d = absurd d
    skip-Decode (h ∷ hs) (m ∷ ms) (c, e, d) =
        let skipped : (h.cluster_id == id) ≡ false = rw c (differs id other n) in
        rw skipped (skip-Decode hs ms d)

    skip-DecodeTelemetry :
        (hs : List GpuTelemetryHistory) (ms : List (GpuTelemetry F))
        → DecodeTelemetry codec other hs ms
        → keep (λ h. h.cluster_id == id) hs ≡ []
    skip-DecodeTelemetry [] ms d = refl
    skip-DecodeTelemetry (h ∷ hs) [] d = absurd d
    skip-DecodeTelemetry (h ∷ hs) (m ∷ ms) (c, e, d) =
        let skipped : (h.cluster_id == id) ≡ false = rw c (differs id other n) in
        rw skipped (skip-DecodeTelemetry hs ms d)

    -- What is added for another cluster leaves its rows as they are.
    pub own-others :
        (ps : List (Payload F)) (t u : Tables)
        → Adds codec other ps t u
        → ((own id u).snapshot_histories ≡ (own id t).snapshot_histories)
          × ((own id u).telemetry_histories ≡ (own id t).telemetry_histories)
    own-others ps t u a = (
      ap (keep (λ h. h.cluster_id == id)) a.histories
          ∙ keep-append _ t.snapshot_histories a.added
          ∙ ap (λ l. keep (λ h. h.cluster_id == id) t.snapshot_histories ++ l)
              (skip-Decode a.added (snapshots_in ps) a.decode)
          ∙ append-nil _,
      ap (keep (λ h. h.cluster_id == id)) a.telemetry
          ∙ keep-append _ t.telemetry_histories a.added_telemetry
          ∙ ap (λ l. keep (λ h. h.cluster_id == id) t.telemetry_histories ++ l)
              (skip-DecodeTelemetry a.added_telemetry (telemetry_in ps) a.decode_telemetry)
          ∙ append-nil _,
    )

module _ {F : Type 0} (codec : Codec F) (id : String) where
  no_row : (hs : List ClusterSnapshotHistory) → Decode codec id hs [] → hs ≡ []
  no_row [] d = refl
  no_row (h ∷ hs) d = absurd d

  no_row_of_telemetry : (hs : List GpuTelemetryHistory) → DecodeTelemetry codec id hs [] → hs ≡ []
  no_row_of_telemetry [] d = refl
  no_row_of_telemetry (h ∷ hs) d = absurd d

  -- Where nothing is stored, the rows are the same.
  pub own-none :
      (t u : Tables)
      → Adds codec id [] t u
      → ((own id u).snapshot_histories ≡ (own id t).snapshot_histories)
        × ((own id u).telemetry_histories ≡ (own id t).telemetry_histories)
  own-none t u a = (
    ap (keep (λ h. h.cluster_id == id)) (
        a.histories
        ∙ ap (λ l. t.snapshot_histories ++ l) (no_row a.added a.decode)
        ∙ append-nil t.snapshot_histories),
    ap (keep (λ h. h.cluster_id == id)) (
        a.telemetry
        ∙ ap (λ l. t.telemetry_histories ++ l)
            (no_row_of_telemetry a.added_telemetry a.decode_telemetry)
        ∙ append-nil t.telemetry_histories),
  )

  -- Nothing is added.
  pub none_added : (t : Tables) → Adds codec id [] t t
  none_added t = record {
    added = [];
    added_telemetry = [];
    histories = sym (append-nil t.snapshot_histories);
    telemetry = sym (append-nil t.telemetry_histories);
    decode = tt;
    decode_telemetry = tt;
  }
