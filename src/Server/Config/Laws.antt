-- ===== src/Server/Config/Laws.antt =====
-- Which configurations of the server are valid.
use cluster_monitor.Prelude.{
  ◌≡◌, ◌≢◌, ◌↔◌, ◌⊎◌, inl, inr, refl, String, Bool, true, false, if◌then◌else◌, not, arith,
}
use cluster_monitor.Prelude.Int.{ℤ, pos, negsuc, ◌<ℤ◌}
use cluster_monitor.Prelude.Order.{◌==◌, string_ord}
use cluster_monitor.Go.Result.{Result, ok, err, plain, or_plain, ◌>>◌}
use cluster_monitor.Go.Checks.{refused_iff, sequence_iff, or_plain_iff, is_set_iff}
use cluster_monitor.Server.Config.{
  validate_auth, Libraries, not_positive, Config, validate_storage, validate,
}

module _ (libs : Libraries) where
  -- The storage that is used is set: the path where the server stands alone, and else what the
  -- library asks of a database.
  abbrev pub StorageIsValid : Config libs → Type 0
  StorageIsValid c =
      ((c.debug.standalone ≡ true) × (c.debug.sqlite_path ≢ ""))
      ⊎ ((c.debug.standalone ≡ false) × (libs.validate_database c.database ≡ ok tt))

  -- The ports are positive, the storage is set, with authentication the address of the server that
  -- authenticates too, and the library of the usage sender is content.
  pub record IsValid (c : Config libs) : Type 0 where
    pub http_positive : pos 0 <ℤ c.http_port
    pub grpc_positive : pos 0 <ℤ c.grpc_port
    pub worker_positive : pos 0 <ℤ c.worker_service_grpc_port
    pub storage_valid : StorageIsValid c
    pub auth_valid : (c.auth_config.enable ≡ false) ⊎ (c.auth_config.rbac_internal_server_addr ≢ "")
    pub sender_valid : libs.validate_sender c.usage_sender ≡ ok tt

  positive_iff : (port : ℤ) → (not_positive port ≡ false) ↔ (pos 0 <ℤ port)
  positive_iff (pos n) = (λ h. ground arith, λ h. ground arith)
  positive_iff (negsuc n) = (λ h. ground arith, λ h. ground arith)

  address_iff :
      (enable : Bool) (addr : String)
      → (◌≡◌ {A = Result (Unit {0})}
          (if not enable then ok tt else if addr == "" then err plain else ok tt)
          (ok tt))
        ↔ ((enable ≡ false) ⊎ (addr ≢ ""))
  address_iff true addr =
      let refused = refused_iff (addr == "") (ok tt) in
      (
        λ h. inr ((is_set_iff addr).0 (refused.0 h).0),
        λ d. elim d [ inl e ↦ cc | inr ne ↦ refused.1 ((is_set_iff addr).1 ne, refl) ],
      )
  address_iff false addr = (λ h. inl refl, λ d. refl)

  storage_iff :
      (standalone : Bool) (path : String) (r : Result (Unit {0}))
      → ((if standalone then (if path == "" then err plain else ok tt) else or_plain r) ≡ ok tt)
        ↔ (((standalone ≡ true) × (path ≢ "")) ⊎ ((standalone ≡ false) × (r ≡ ok tt)))
  storage_iff true path r =
      let refused = refused_iff (path == "") (ok tt) in
      (
        λ h. inl (refl, (is_set_iff path).0 (refused.0 h).0),
        λ d. elim d [ inl (e, ne) ↦ refused.1 ((is_set_iff path).1 ne, refl) | inr (e, h) ↦ cc ],
      )
  storage_iff false path r = (
    λ h. inr (refl, (or_plain_iff r).0 h),
    λ d. elim d [ inl (e, ne) ↦ cc | inr (e, h) ↦ (or_plain_iff r).1 h ],
  )

  -- The configuration of the server passes Validate exactly when the ports are positive, the path
  -- is set where the server stands alone and the database is accepted by its library where it does
  -- not, the address of the RBAC server is set where authentication is enabled, and the usage
  -- sender is accepted by its library.
  pub validate-IsValid : (c : Config libs) → (validate libs c ≡ ok tt) ↔ IsValid c
  unfolding validate validate_auth validate_storage
  validate-IsValid c =
      let storage = validate_storage libs c in
      let auth = validate_auth c.auth_config in
      let sender = libs.validate_sender c.usage_sender in
      let rest = storage >> (or_plain auth >> sender) in
      let p1 = not_positive c.http_port in
      let p2 = not_positive c.grpc_port in
      let p3 = not_positive c.worker_service_grpc_port in
      let chain3 = refused_iff p3 rest in
      let chain2 = refused_iff p2 (if p3 then err plain else rest) in
      let chain1 = refused_iff p1 (if p2 then err plain else if p3 then err plain else rest) in
      let store_then = sequence_iff storage (or_plain auth >> sender) in
      let auth_then = sequence_iff (or_plain auth) sender in
      let stored =
        storage_iff c.debug.standalone c.debug.sqlite_path (libs.validate_database c.database) in
      let address = address_iff c.auth_config.enable c.auth_config.rbac_internal_server_addr in
      (
        λ h.
            let (a, h1) = chain1.0 h in
            let (b, h2) = chain2.0 h1 in
            let (d, h3) = chain3.0 h2 in
            let (e, h4) = store_then.0 h3 in
            let (f, g) = auth_then.0 h4 in
            record {
              http_positive = (positive_iff c.http_port).0 a;
              grpc_positive = (positive_iff c.grpc_port).0 b;
              worker_positive = (positive_iff c.worker_service_grpc_port).0 d;
              storage_valid = stored.0 e;
              auth_valid = address.0 ((or_plain_iff auth).0 f);
              sender_valid = g;
            },
        λ v. chain1.1 (
          (positive_iff c.http_port).1 v.http_positive,
          chain2.1 (
            (positive_iff c.grpc_port).1 v.grpc_positive,
            chain3.1 (
              (positive_iff c.worker_service_grpc_port).1 v.worker_positive,
              store_then.1 (
                stored.1 v.storage_valid,
                auth_then.1 ((or_plain_iff auth).1 (address.1 v.auth_valid), v.sender_valid),
              ),
            ),
          ),
        ),
      )
