-- ===== src/Lockdown/Start/Factory.antt =====
-- src/service.c: service_client_factory_start_service, which all the protocol clients are made by:
-- a session with lockdownd, the service started in it, and then the client's constructor.
use libimobiledevice.Common.{
  ◌≡◌, refl, Bool, true, false, Option, none, some, inl, inr, ◌<◌, ◌^◌, if◌then◌else◌,
}
use libimobiledevice.Common.Run.{
  Run, ret, ◌>>=◌, After, After->>=, After-any, After-if, After-Option, After-self, After→Ensures,
}
use libimobiledevice.PlistService.Secure.{SecureChannel}
use libimobiledevice.Service.{ServiceError}
use libimobiledevice.DeviceLink.{Text}
use libimobiledevice.Dictionary.{Dicts}
use libimobiledevice.Userpref.{Usbmuxd}
use libimobiledevice.Lockdown.Error.{LockdownError, is_success}
use libimobiledevice.Lockdown.Client.{Device, Client}
use libimobiledevice.Lockdown.Verdict.{is_success→eq}
use libimobiledevice.Lockdown.Session.{lockdownd_client_free}
use libimobiledevice.Lockdown.Pair.Record.{Keys}
use libimobiledevice.Lockdown.Start.Service.{
  Descriptor, reset, lockdownd_start_service, lockdownd_do_start_service,
}
use libimobiledevice.Lockdown.Start.Handshake.{lockdownd_client_new_with_handshake}
use libimobiledevice.Lockdown.Start.Descriptors.{Described, do_start_service-Described}

-- A constructor is given the descriptor, which may be NULL, and comes back with a number, of which
-- `is_ok` says whether it is 0, and with what it left in `*client`. The outcome of the factory has
-- its code, the number if a constructor was called, and the client.
module _ {P C H E X : Type 0} (dicts : Dicts P) (channel : SecureChannel P C)
    (usbmuxd : Usbmuxd P H) (keys : Keys P H) (is_ok : E → Bool)
    (construct : Device → Option Descriptor → Run (E × Option X)) where
  abbrev pub Made : Type 0
  Made = ServiceError × Option E × Option X × Device × H

  unfoldable pub construct_client : Device → H → Option Descriptor → Run Made
  construct_client device h service = construct device service >>= λ r. ret (
    (if is_ok r.0 then ServiceError.success else ServiceError.start_service_error),
    some r.0,
    r.1,
    device,
    h,
  )

  -- The client of lockdownd is freed before the outcome of starting the service is looked at.
  unfoldable pub start_in_session : Text → Client C → H → Run Made
  start_in_session service_name client h =
      lockdownd_start_service dicts channel usbmuxd client (some service_name) none h >>= λ r.
      lockdownd_client_free dicts channel (some r.2) >>= λ e.
      if is_success r.0
      then construct_client r.2.device h r.1
      else ret (ServiceError.start_service_error, none, none, r.2.device, h)

  unfoldable pub service_client_factory_start_service : Device → Text → Option Text → H → Run Made
  service_client_factory_start_service device service_name label h =
      lockdownd_client_new_with_handshake dicts channel usbmuxd keys device label h >>= λ r.
      if is_success r.0
      then elim r.1 [
        | none ↦ ret (ServiceError.start_service_error, none, none, r.2, r.3)
        | some client ↦ start_in_session service_name client r.3
      ]
      else ret (ServiceError.start_service_error, none, none, r.2, r.3)

  -- The constructor succeeded, on a descriptor of the named service with a port of 16 bits.
  abbrev pub Constructed : Text → Made → Type 0
  Constructed service_name m =
      m.0 ≡ ServiceError.success
      → (device : Device) × (d : Descriptor) × (e : E) × (construct device (some d) ≡ ret (e, m.2))
        × (is_ok e ≡ true)
        × (d.identifier ≡ some service_name)
        × (d.port < 2 ^ 16)

  construct_client-Constructed :
      (service_name : Text) (device : Device) (h : H) (d : Descriptor)
      → d.identifier ≡ some service_name
      → d.port < 2 ^ 16
      → After (construct_client device h (some d)) (Constructed service_name)
  unfolding construct_client
  construct_client-Constructed service_name device h d i b =
      After->>= (λ r. construct device (some d) ≡ ret r) _ (construct device (some d)) _
        (After-self (construct device (some d)))
        (λ r q e. (device, d, r.0, q, ok_of (is_ok r.0) e, i, b))
    where
      ok_of :
          (t : Bool)
          → (if t then ServiceError.success else ServiceError.start_service_error)
            ≡ ServiceError.success
          → t ≡ true
      ok_of true e = refl
      ok_of false e = cc

  construct_started :
      (service_name : Text) (device : Device) (h : H) (e : LockdownError)
      (service : Option Descriptor)
      → Described service_name none e service
      → is_success e ≡ true
      → After (construct_client device h service) (Constructed service_name)
  construct_started service_name device h e service (inl (q, d, s, i, b)) t =
      rw s (construct_client-Constructed service_name device h d i b)
  construct_started service_name device h e service (inr (n, s)) t = absurd (n (is_success→eq e t))

  start_in_session-Constructed :
      (service_name : Text) (client : Client C) (h : H)
      → After (start_in_session service_name client h) (Constructed service_name)
  unfolding start_in_session lockdownd_start_service reset
  start_in_session-Constructed service_name client h =
      After->>= (λ r. started ≡ ret r) _ started _ (After-self started)
        (λ r q. After-any _ (lockdownd_client_free dicts channel (some r.2)) _ (λ f.
          After-if _ (is_success r.0) _ _
            (λ t.
              construct_started service_name r.2.device h r.0 r.1
                (do_start_service-Described dicts channel usbmuxd client service_name false none h
                  r.0 r.1 r.2 q).0
                t)
            (λ n e. cc)))
    where
      started : Run (LockdownError × Option Descriptor × Client C)
      started =
          lockdownd_do_start_service dicts channel usbmuxd client (some service_name) false none h

  -- When service_client_factory_start_service succeeds, the client that it hands out is the one
  -- that the constructor made, with a success of its own, for a descriptor that names the service
  -- asked for and whose port fits 16 bits.
  pub factory_start_service-Constructed :
      (device : Device) (service_name : Text) (label : Option Text) (h : H) (m : Made)
      → service_client_factory_start_service device service_name label h ≡ ret m
      → m.0 ≡ ServiceError.success
      → (device' : Device) × (d : Descriptor) × (e : E) × (construct device' (some d)
          ≡ ret (e, m.2))
        × (is_ok e ≡ true)
        × (d.identifier ≡ some service_name)
        × (d.port < 2 ^ 16)
  unfolding service_client_factory_start_service
  factory_start_service-Constructed device service_name label h m run =
      After→Ensures (Constructed service_name)
        (lockdownd_client_new_with_handshake dicts channel usbmuxd keys device label h >>= _)
        (After-any (Constructed service_name)
          (lockdownd_client_new_with_handshake dicts channel usbmuxd keys device label h) _
          (λ r.
            After-if _ (is_success r.0) _ _
              (λ t.
                After-Option _ r.1 _ _ (λ n e. cc)
                  (λ client o. start_in_session-Constructed service_name client r.3))
              (λ f e. cc)))
        m run
