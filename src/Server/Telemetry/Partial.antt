-- ===== src/Server/Telemetry/Partial.antt =====
-- What `SendClusterTelemetry` has stored when it returns, with or without an error.
use cluster_monitor.Prelude.{
  ◌≡◌, ◌≢◌, inl, inr, refl, sym, ap, ◌∙◌, Bool, Option, List, [], ◌∷◌, ◌++◌,
}
use mathlib.Core.List.{append-nil}
use mathlib.Core.Path.{subst}
use cluster_monitor.Go.Result.{Result, ok, err, status, invalid_argument, succeeded}
use cluster_monitor.Go.Exec.{bind_goes_on, bind_stopped, ◌>>=◌}
use cluster_monitor.Api.{Payload, SendClusterTelemetryRequest}
use cluster_monitor.Store.Database.{Db, IsLawful}
use cluster_monitor.Store.Registered.{IsIndexed}
use cluster_monitor.Store.Invariant.{Kept}
use cluster_monitor.Server.Auth.{ClusterInfo, extract_cluster_info}
use cluster_monitor.Server.Codec.{Codec}
use cluster_monitor.Server.Codec as Codec
use cluster_monitor.Server.Telemetry.{process, process_all, accept, send_cluster_telemetry}
use cluster_monitor.Server.Telemetry.Adds.{Adds-cons}
use cluster_monitor.Server.Telemetry.Laws.{Stores, process-Stores}
use cluster_monitor.Server.Telemetry.Failed.{process-failed}

-- The first of the payloads are stored, and the others are not.
pub record StoresPart (db : Db) {F : Type 0} (codec : Codec F) (info : ClusterInfo)
    (ps : List (Payload F)) (s u : db.State) : Type 0 where
  pub stored : List (Payload F)
  pub rest : List (Payload F)
  pub split : ps ≡ stored ++ rest
  pub stores : Stores db codec info stored s u

-- How the loop over the payloads, which returned `r`, has gone from `s` to `u`: no error, and all
-- payloads are stored; or a payload `p` that failed with `r`, in a state in which just the payloads
-- in front of it were stored, and from which no history has changed.
pub data Ends (db : Db) {F : Type 0} (codec : Codec F) (info : ClusterInfo) (ps : List (Payload F))
    (s u : db.State) (r : Result (Unit {0})) : Type 0 where
  complete : r ≡ ok tt → Stores db codec info ps s u → Ends db codec info ps s u r
  stopped :
      (stored : List (Payload F)) (p : Payload F) (rest : List (Payload F)) (at : db.State)
      → r ≢ ok tt
      → ps ≡ stored ++ p ∷ rest
      → Stores db codec info stored s at
      → (process db codec info p at).0 ≡ r
      → Kept (db.tables at) (db.tables u)
      → Ends db codec info ps s u r

-- How the handler has gone from `s` to `u`: a request without payloads is refused and changes
-- nothing, and the loop ran over the payloads of any other one.
pub data Answers (db : Db) {F : Type 0} (codec : Codec F) (info : ClusterInfo)
    (ps : List (Payload F)) (s u : db.State) (r : Result (Unit {0})) : Type 0 where
  refused : ps ≡ [] → r ≡ err (status invalid_argument) → s ≡ u → Answers db codec info ps s u r
  processed : ps ≢ [] → Ends db codec info ps s u r → Answers db codec info ps s u r

module _ (db : Db) {F : Type 0} (codec : Codec F) (info : ClusterInfo) where
  -- Where the histories are unchanged, what was stored is what is stored.
  Stores-Kept :
      (ps : List (Payload F)) (s t u : db.State)
      → Stores db codec info ps s t
      → Kept (db.tables t) (db.tables u)
      → Stores db codec info ps s u
  Stores-Kept ps s t u (a, x) (h, k, y) = (
    record {
      added = a.added;
      added_telemetry = a.added_telemetry;
      histories = h ∙ a.histories;
      telemetry = k ∙ a.telemetry;
      decode = a.decode;
      decode_telemetry = a.decode_telemetry;
    },
    y,
  )

  none_stored : (s : db.State) → IsIndexed (db.tables s).snapshots → Stores db codec info [] s s
  none_stored s x = (
    record {
      added = [];
      added_telemetry = [];
      histories = sym (append-nil (db.tables s).snapshot_histories);
      telemetry = sym (append-nil (db.tables s).telemetry_histories);
      decode = tt;
      decode_telemetry = tt;
    },
    x,
  )

  Answers-StoresPart :
      (ps : List (Payload F)) (s u : db.State) {r : Result (Unit {0})}
      → IsIndexed (db.tables s).snapshots
      → Answers db codec info ps s u r
      → StoresPart db codec info ps s u
  Answers-StoresPart ps s u x (Answers.refused e f same) = record {
    stored = [];
    rest = ps;
    split = refl;
    stores = subst (Stores db codec info [] s) same (none_stored s x);
  }
  Answers-StoresPart ps s u x (Answers.processed n (Ends.complete e st)) = record {
    stored = ps;
    rest = [];
    split = sym (append-nil ps);
    stores = st;
  }
  Answers-StoresPart ps s u x (Answers.processed n (Ends.stopped stored p rest at e f st g k)) =
      record {
        stored = stored;
        rest = p ∷ rest;
        split = f;
        stores = Stores-Kept stored s at u st k;
      }

  -- One payload more in front, which was stored.
  Ends-cons :
      (p : Payload F) (ps : List (Payload F)) (s t u : db.State) (r : Result (Unit {0}))
      → Stores db codec info (p ∷ []) s t
      → Ends db codec info ps t u r
      → Ends db codec info (p ∷ ps) s u r
  Ends-cons p ps s t u r (a, x) (Ends.complete e (b, y)) =
      Ends.complete e (Adds-cons codec info.cluster_id p ps _ _ _ a b, y)
  Ends-cons p ps s t u r (a, x) (Ends.stopped stored q rest at n split (b, y) failed k) =
      Ends.stopped (p ∷ stored) q rest at n (ap (λ l. p ∷ l) split)
        (Adds-cons codec info.cluster_id p stored _ _ _ a b, y) failed k

module _ (db : Db) (lawful : IsLawful db) {F : Type 0} (codec : Codec F)
    (exact : Codec.IsLawful codec) (info : ClusterInfo) where
  process_all-Ends :
      (ps : List (Payload F)) (s : db.State)
      → IsIndexed (db.tables s).snapshots
      → Ends db codec info ps s
          (process_all db codec info ps s).1
          (process_all db codec info ps s).0
  unfolding process_all
  process_all-Ends [] s x = Ends.complete refl (none_stored db codec info s x)
  process_all-Ends (p ∷ ps) s x =
      let m = process db codec info p in
      let rest = process_all db codec info ps in
      elim (succeeded (m s).0) [
        | inl done ↦
            let a = process-Stores db lawful codec exact info p s x done in
            subst (λ z. Ends db codec info (p ∷ ps) s z.1 z.0)
              (sym (bind_goes_on m (λ _. rest) s done))
              (Ends-cons db codec info p ps s (m s).1 _ _ a (process_all-Ends ps (m s).1 a.1))
        | inr failed ↦
            let e = bind_stopped m (λ _. rest) s failed in
            subst (λ z. Ends db codec info (p ∷ ps) s z.1 z.0) (sym e)
              (Ends.stopped [] p ps s failed refl (none_stored db codec info s x) refl
                (process-failed db lawful codec info p s x failed))
      ]

  -- Over a lawful database with an indexed table and a lawful codec, SendClusterTelemetry of a
  -- known cluster refuses a request without payloads with InvalidArgument, and changes nothing. For
  -- any other request, either it returns no error, and the rows that it has added to the histories
  -- are those of all payloads, in order; or it returns the error of one of the payloads, which was
  -- processed when just the rows of the payloads in front of it had been added, and neither history
  -- has changed since. The table of clusters stays indexed.
  pub send_cluster_telemetry-Answers :
      (enable_auth : Bool) (extracted : Option ClusterInfo) (req : SendClusterTelemetryRequest F)
      (s : db.State)
      → extract_cluster_info enable_auth extracted ≡ ok info
      → IsIndexed (db.tables s).snapshots
      → Answers db codec info req.payloads s
          (send_cluster_telemetry db codec enable_auth extracted req s).1
          (send_cluster_telemetry db codec enable_auth extracted req s).0
  unfolding send_cluster_telemetry accept ◌>>=◌
  send_cluster_telemetry-Answers enable_auth extracted req s e x = rw e (accepted req.payloads)
    where
      accepted :
          (ps : List (Payload F))
          → Answers db codec info ps s (accept db codec info ps s).1 (accept db codec info ps s).0
      accepted [] = Answers.refused refl refl refl
      accepted (p ∷ ps) = Answers.processed (λ z. cc) (process_all-Ends (p ∷ ps) s x)

module _ (db : Db) (lawful : IsLawful db) {F : Type 0} (codec : Codec F)
    (exact : Codec.IsLawful codec) where
  -- Whatever is returned, the first payloads of the request are stored.
  pub send_cluster_telemetry-StoresPart :
      (enable_auth : Bool) (info : ClusterInfo) (extracted : Option ClusterInfo)
      (req : SendClusterTelemetryRequest F) (s : db.State)
      → extract_cluster_info enable_auth extracted ≡ ok info
      → IsIndexed (db.tables s).snapshots
      → StoresPart db codec info req.payloads s
          (send_cluster_telemetry db codec enable_auth extracted req s).1
  send_cluster_telemetry-StoresPart enable_auth info extracted req s e x =
      Answers-StoresPart db codec info req.payloads s _ x
        (send_cluster_telemetry-Answers db lawful codec exact info enable_auth extracted req s e x)
