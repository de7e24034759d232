-- ===== src/InstallationProxy/Verdict.antt =====
-- src/installation_proxy.c: what the verdict on a status message means.
use libimobiledevice.Common.{
  ◌≡◌, ◌≢◌, refl, ap, true, false, not, List, [], ◌∷◌, Option, none, some, inl, inr, Bool-cases,
  arith,
}
use libimobiledevice.Common.Bytes.{codes, bytes_eq, bytes_eq→eq, bytes_eq→neq}
use libimobiledevice.DeviceLink.{Text}
use libimobiledevice.Dictionary.{Dicts}
use libimobiledevice.InstallationProxy.Error.{InstproxyError, is_success}
use libimobiledevice.InstallationProxy.{
  after_status, instproxy_status_get_error, instproxy_status_get_name, verdict,
}

after_status-going :
    (res : InstproxyError) (name : Option Text)
    → (after_status res (not (is_success res)) name).1 ≡ false
    → (res ≡ InstproxyError.success) × (name ≢ some (codes "Complete"))
unfolding after_status
after_status-going InstproxyError.success none e = (refl, λ q. cc)
after_status-going InstproxyError.success (some name) e =
    elim (Bool-cases (bytes_eq name (codes "Complete"))) [
      | inl t ↦ absurd (ground (arith, t, e))
      | inr f ↦ (refl, λ q. let s : name ≡ codes "Complete" = cc q in bytes_eq→neq _ _ f s)
    ]
after_status-going _ none e = absurd cc
after_status-going _ (some name) e =
    absurd (ground (arith, e, Bool-cases (bytes_eq name (codes "Complete"))))

after_status-done :
    (res : InstproxyError) (name : Option Text)
    → (after_status res (not (is_success res)) name).1 ≡ true
    → (after_status res (not (is_success res)) name).0 ≡ InstproxyError.success
    → (res ≡ InstproxyError.success) × (name ≡ some (codes "Complete"))
unfolding after_status
after_status-done InstproxyError.success none e s = absurd cc
after_status-done _ none e s = absurd cc
after_status-done res (some name) e s = elim (Bool-cases (bytes_eq name (codes "Complete"))) [
  | inl t ↦ (ground (arith, t, s), ap some (bytes_eq→eq name (codes "Complete") t))
  | inr f ↦ absurd (ground (arith, f, s))
]

after_status-masked :
    (res : InstproxyError) (name : Text)
    → res ≢ InstproxyError.success
    → name ≢ codes "Complete"
    → after_status res (not (is_success res)) (some name) ≡ (InstproxyError.op_in_progress, true)
unfolding after_status
after_status-masked InstproxyError.success name failed other = absurd (failed refl)
after_status-masked _ name failed other = elim (Bool-cases (bytes_eq name (codes "Complete"))) [
  | inl t ↦ absurd (other (bytes_eq→eq _ _ t))
  | inr f ↦ rw f refl
]

module _ {P : Type 0} (dicts : Dicts P) where
  -- A message without an error whose Status, if there is one, is not Complete.
  abbrev pub InProgress : P → Type 0
  InProgress m =
      ((instproxy_status_get_error dicts m).0 ≡ InstproxyError.success)
      × (instproxy_status_get_name dicts m ≢ some (codes "Complete"))

  abbrev pub AllInProgress : List P → Type 0
  AllInProgress [] = Unit {0}
  AllInProgress (m ∷ ms) = InProgress m × AllInProgress ms

  -- A message without an error whose Status is Complete.
  abbrev pub IsComplete : P → Type 0
  IsComplete m =
      ((instproxy_status_get_error dicts m).0 ≡ InstproxyError.success)
      × (instproxy_status_get_name dicts m ≡ some (codes "Complete"))

  pub verdict-going : (m : P) → (verdict dicts m).1 ≡ false → InProgress m
  unfolding verdict
  verdict-going m e = after_status-going _ _ e

  pub verdict-done :
      (m : P)
      → (verdict dicts m).1 ≡ true
      → (verdict dicts m).0 ≡ InstproxyError.success
      → IsComplete m
  unfolding verdict
  verdict-done m e s = after_status-done _ _ e s

  pub verdict-masked :
      (m : P) (name : Text)
      → (instproxy_status_get_error dicts m).0 ≢ InstproxyError.success
      → instproxy_status_get_name dicts m ≡ some name
      → name ≢ codes "Complete"
      → verdict dicts m ≡ (InstproxyError.op_in_progress, true)
  unfolding verdict
  verdict-masked m name failed status other =
      rw (verdict, status) (after_status-masked _ name failed other)
