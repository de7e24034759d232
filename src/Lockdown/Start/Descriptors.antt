-- ===== src/Lockdown/Start/Descriptors.antt =====
-- src/lockdown.c: what comes of starting a service.
use libimobiledevice.Common.{
  ◌%◌, ◌^◌, ◌<◌, ◌≡◌, refl, ◌≢◌, ◌⊎◌, Bool, true, false, Option, none, some, arith, inl, inr,
  Bool-cases, Option-cases,
}
use libimobiledevice.Common.Bytes.{codes}
use libimobiledevice.Common.Run.{ret, After, After->>=, After-if, After→Ensures}
use libimobiledevice.PlistService.Secure.{SecureChannel}
use libimobiledevice.DeviceLink.{Text}
use libimobiledevice.Dictionary.{Dicts, item_in, string_in, is_data}
use libimobiledevice.Userpref.{UserprefError, Usbmuxd, escrow_bag_key}
use libimobiledevice.Lockdown.Error.{LockdownError, is_success}
use libimobiledevice.Lockdown.Client.{Client, lockdown_check_result}
use libimobiledevice.Lockdown.Calls.{exchange}
use libimobiledevice.Lockdown.Verdict.{unsuccessful→neq, lockdownd_strtoerr-fails}
use libimobiledevice.Lockdown.Session.Frame.{Moved, Moved-refl, exchange-Moved}
use libimobiledevice.Lockdown.Start.Service.{
  Descriptor, bag_error, reset, port_in, descriptor_of, refusal, service_started, add_escrow_bag,
  lockdownd_build_start_service_request, start_with, lockdownd_do_start_service,
}

-- The code is a success, and the descriptor is one of the service with a port of 16 bits; or the
-- code is an error, and the descriptor is the given one, reset.
abbrev pub Described : Text → Option Descriptor → LockdownError → Option Descriptor → Type 0
Described identifier service e service' =
    ((e ≡ LockdownError.success)
      × (d : Descriptor) × (service' ≡ some d)
      × (d.identifier ≡ some identifier)
      × (d.port < 2 ^ 16))
    ⊎ ((e ≢ LockdownError.success) × (service' ≡ service))

module _ {P : Type 0} (dicts : Dicts P) where
  port_in-bound : (o : Option P) → port_in dicts o < 2 ^ 16
  unfolding port_in
  port_in-bound none = omega arith
  port_in-bound (some n) = elim (Option-cases (dicts.plist.uint_val n)) [
    | inl q ↦ ground (arith, q)
    | inr (v, q) ↦ let m : v % 2 ^ 16 < 2 ^ 16 = omega arith in ground (arith, q, m)
  ]

  refusal-fails :
      (e : LockdownError) (o : Option P)
      → is_success e ≡ false
      → is_success (refusal dicts e o) ≡ false
  unfolding refusal
  refusal-fails e o f = elim (Option-cases (string_in dicts (item_in dicts o (codes "Error")))) [
    | inl n ↦ ground (arith, f, n)
    | inr (v, n) ↦ ground (arith, n, lockdownd_strtoerr-fails v)
  ]

  started-Described :
      (identifier : Text) (o : Option P) (service : Option Descriptor)
      → Described identifier service
          (service_started dicts identifier o service).0
          (service_started dicts identifier o service).1
  unfolding service_started descriptor_of
  started-Described identifier none service = inr ((λ e. cc), refl)
  started-Described identifier (some d) service =
      elim (Bool-cases
        (is_success (lockdown_check_result dicts (some d) (some (codes "StartService"))))) [
          | inl t ↦ rw t (inl (refl, _, refl, refl, port_in-bound _))
          | inr f ↦ rw f (inr (unsuccessful→neq _ (refusal-fails _ _ f), refl))
        ]

  -- A request that could not be built has an error as its code.
  abbrev Built : LockdownError × Option P → Type 0
  Built r = r.1 ≡ none → r.0 ≢ LockdownError.success

  bag_error-fails : (e : UserprefError) → bag_error e ≢ LockdownError.success
  unfolding bag_error
  bag_error-fails UserprefError.read_error q = cc
  bag_error-fails _ q = cc

  add_escrow_bag-Built :
      (e : UserprefError) (o : Option P) (d : P) → Built (add_escrow_bag dicts e o d)
  unfolding add_escrow_bag
  add_escrow_bag-Built e none d n = bag_error-fails e
  add_escrow_bag-Built e (some p) d n = elim (Option-cases (dicts.get_item p escrow_bag_key)) [
    | inl q ↦ λ m. ground (arith, q, m)
    | inr (b, q) ↦ elim (Bool-cases (is_data (dicts.plist.node_type b))) [
      | inl t ↦ absurd (ground (arith, q, t, n))
      | inr f ↦ λ m. ground (arith, q, f, m)
    ]
  ]

module _ {P C H : Type 0} (dicts : Dicts P) (channel : SecureChannel P C)
    (usbmuxd : Usbmuxd P H) where
  build-Built :
      (c : Client C) (identifier : Text) (bag : Bool) (h : H)
      → Built dicts (lockdownd_build_start_service_request dicts channel usbmuxd c identifier bag h)
  unfolding lockdownd_build_start_service_request
  build-Built c identifier false h n = absurd cc
  build-Built c identifier true h n = add_escrow_bag-Built dicts _ _ _ n

  start_with-Described :
      (r : LockdownError × Option P) (c : Client C) (identifier : Text)
      (service : Option Descriptor)
      → Built dicts r
      → After
          (start_with dicts channel usbmuxd r c identifier service)
          (λ q. Described identifier service q.0 q.1 × Moved c q.2)
  unfolding start_with
  start_with-Described (e, none) c identifier service b = (inr (b refl, refl), Moved-refl c)
  start_with-Described (e, some d) c identifier service b =
      After->>= (λ r. Moved c r.2) _ (exchange dicts channel c d) _
        (exchange-Moved dicts channel c d)
        (λ r m.
          After-if _ (is_success r.0) _ _ (λ t. (started-Described dicts identifier r.1 service, m))
            (λ f. (inr (unsuccessful→neq _ f, refl), m)))

  -- lockdownd_start_service and lockdownd_start_service_with_escrow_bag come back with a success
  -- and the descriptor of the service that was asked for, whose port fits 16 bits, or with an
  -- error and the descriptor that was there before, with its port and flag reset; the client is the
  -- same but for its connection.
  pub do_start_service-Described :
      (client : Client C) (identifier : Text) (send_escrow_bag : Bool) (service : Option Descriptor)
      (h : H) (e : LockdownError) (service' : Option Descriptor) (client' : Client C)
      → lockdownd_do_start_service dicts channel usbmuxd client
          (some identifier)
          send_escrow_bag
          service
          h
        ≡ ret (e, service', client')
      → Described identifier (reset service) e service' × Moved client client'
  unfolding lockdownd_do_start_service
  do_start_service-Described client identifier bag service h e service' client' run =
      After→Ensures (λ q. Described identifier (reset service) q.0 q.1 × Moved client q.2)
        (start_with dicts channel usbmuxd
          (lockdownd_build_start_service_request dicts channel usbmuxd client identifier bag h)
          client identifier (reset service))
        (start_with-Described _ client identifier (reset service)
          (build-Built client identifier bag h))
        (e, service', client') run
