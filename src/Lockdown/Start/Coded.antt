-- ===== src/Lockdown/Start/Coded.antt =====
-- src/service.c: the code of the constructor and the code of the factory that called it.
use libimobiledevice.Common.{◌≡◌, refl, Bool, true, Option, none, some}
use libimobiledevice.Common.Run.{Run, After, After-any, After-if, After-Option}
use libimobiledevice.PlistService.Secure.{SecureChannel}
use libimobiledevice.Service.{ServiceError}
use libimobiledevice.DeviceLink.{Text}
use libimobiledevice.Dictionary.{Dicts}
use libimobiledevice.Userpref.{Usbmuxd}
use libimobiledevice.Lockdown.Error.{is_success}
use libimobiledevice.Lockdown.Client.{Device, Client}
use libimobiledevice.Lockdown.Session.{lockdownd_client_free}
use libimobiledevice.Lockdown.Pair.Record.{Keys}
use libimobiledevice.Lockdown.Start.Service.{Descriptor, lockdownd_start_service}
use libimobiledevice.Lockdown.Start.Handshake.{lockdownd_client_new_with_handshake}
use libimobiledevice.Lockdown.Start.Factory.{
  Made, construct_client, start_in_session, service_client_factory_start_service,
}

module _ {P C H E X : Type 0} (dicts : Dicts P) (channel : SecureChannel P C)
    (usbmuxd : Usbmuxd P H) (keys : Keys P H) (is_ok : E → Bool)
    (construct : Device → Option Descriptor → Run (E × Option X)) where
  -- A success of the constructor is one of the factory.
  abbrev pub Coded : Made dicts channel usbmuxd keys is_ok construct → Type 0
  Coded m = (e : E) → m.1 ≡ some e → is_ok e ≡ true → m.0 ≡ ServiceError.success

  construct_client-Coded :
      (device : Device) (h : H) (service : Option Descriptor)
      → After (construct_client dicts channel usbmuxd keys is_ok construct device h service) Coded
  unfolding construct_client
  construct_client-Coded device h service =
      After-any Coded (construct device service) _
        λ r e q t. let same : r.0 ≡ e = cc q in rw (same, t) refl

  start_in_session-Coded :
      (service_name : Text) (client : Client C) (h : H)
      → After
          (start_in_session dicts channel usbmuxd keys is_ok construct service_name client h)
          Coded
  unfolding start_in_session
  start_in_session-Coded service_name client h =
      After-any Coded
        (lockdownd_start_service dicts channel usbmuxd client (some service_name) none h) _
        λ r. After-any Coded (lockdownd_client_free dicts channel (some r.2)) _ λ f.
          After-if Coded (is_success r.0) _ _ (λ t. construct_client-Coded r.2.device h r.1)
            (λ n e q. absurd cc)

  pub factory-Coded :
      (device : Device) (service_name : Text) (label : Option Text) (h : H)
      → After
          (service_client_factory_start_service dicts channel usbmuxd keys is_ok construct device
            service_name label h)
          Coded
  unfolding service_client_factory_start_service
  factory-Coded device service_name label h =
      After-any Coded
        (lockdownd_client_new_with_handshake dicts channel usbmuxd keys device label h) _
        λ r.
          After-if Coded (is_success r.0) _ _
            (λ t.
              After-Option Coded r.1 _ _ (λ n e q. absurd cc)
                λ client o. start_in_session-Coded service_name client r.3)
            (λ n e q. absurd cc)
