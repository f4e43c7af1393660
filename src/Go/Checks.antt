-- ===== src/Go/Checks.antt =====
-- Chains of tests that return an error, as the functions that validate have them.
use cluster_monitor.Prelude.{
  ◌≡◌, ◌≢◌, ◌↔◌, ◌⊎◌, inl, inr, refl, String, Bool, true, false, ◌&&◌, if◌then◌else◌, Bool-cases,
}
use cluster_monitor.Prelude.Order.{◌==◌, ==_refl, eq_of_==, string_ord}
use cluster_monitor.Go.Result.{Result, ok, err, panics, out_of_rounds, plain, or_plain, ◌>>◌}

-- `if b { return fmt.Errorf(…) }`
pub refused_iff :
    (b : Bool) (r : Result (Unit {0}))
    → ((if b then err plain else r) ≡ ok tt) ↔ ((b ≡ false) × (r ≡ ok tt))
refused_iff true r = (λ h. cc, λ (b, h). cc)
refused_iff false r = (λ h. (refl, h), λ (b, h). h)

-- `if err := m; err != nil { return err }`
pub sequence_iff : (m r : Result (Unit {0})) → ((m >> r) ≡ ok tt) ↔ ((m ≡ ok tt) × (r ≡ ok tt))
sequence_iff (ok tt) r = (λ h. (refl, h), λ (e, h). h)
sequence_iff (err e) r = (λ h. cc, λ (e, h). cc)
sequence_iff panics r = (λ h. cc, λ (e, h). cc)
sequence_iff out_of_rounds r = (λ h. cc, λ (e, h). cc)

pub or_plain_iff : (r : Result (Unit {0})) → (or_plain r ≡ ok tt) ↔ (r ≡ ok tt)
or_plain_iff (ok tt) = (λ h. refl, λ h. refl)
or_plain_iff (err e) = (λ h. cc, λ h. cc)
or_plain_iff panics = (λ h. cc, λ h. cc)
or_plain_iff out_of_rounds = (λ h. cc, λ h. cc)

pub is_set_iff : (s : String) → ((s == "") ≡ false) ↔ (s ≢ "")
is_set_iff s = (
  λ h e. cc (h, e, ==_refl s),
  λ ne. elim (Bool-cases (s == "")) [ inl same ↦ absurd (ne (eq_of_== s "" same)) | inr h ↦ h ],
)

-- `a && s == ""` is no reason to refuse.
pub needless_iff : (a : Bool) (s : String) → ((a && (s == "")) ≡ false) ↔ ((a ≡ false) ⊎ (s ≢ ""))
needless_iff true s =
    (λ h. inr ((is_set_iff s).0 h), λ d. elim d [ inl e ↦ cc | inr ne ↦ (is_set_iff s).1 ne ])
needless_iff false s = (λ h. inl refl, λ h. refl)
