-- ===== src/Webinspector/Client.antt =====
-- src/webinspector.c: the client's life, from the service that lockdownd starts to its release.
use libimobiledevice.Common.{◌≡◌, refl, true, Option, none, some, ◌==◌, if◌then◌else◌}
use libimobiledevice.Common.Bytes.{codes}
use libimobiledevice.Common.Run.{Run, ret, ◌>>=◌}
use libimobiledevice.Webinspector.{WebinspectorError, is_success, webinspector_error}
use libimobiledevice.PlistService.{PlistServiceError}
use libimobiledevice.PlistService.Secure.{SecureChannel}
use libimobiledevice.DeviceLink.{Text}
use libimobiledevice.Dictionary.{Dicts}
use libimobiledevice.Userpref.{Usbmuxd}
use libimobiledevice.Lockdown.Client.{Device}
use libimobiledevice.Lockdown.Pair.Record.{Keys}
use libimobiledevice.Lockdown.Start.Service.{Descriptor}
use libimobiledevice.Lockdown.Start.Coded.{Coded}
use libimobiledevice.Lockdown.Start.Factory.{service_client_factory_start_service}

abbrev pub service_name : Text
service_name = codes "com.apple.webinspector"

-- The code where no constructor was called.
unfoldable pub code_of : Option WebinspectorError → WebinspectorError
code_of none = WebinspectorError.unknown_error
code_of (some e) = e

module _ {P C : Type 0} (channel : SecureChannel P C) where
  -- The client that is handed out, or NULL. The pointer `client` is not NULL.
  unfoldable pub new_over : Descriptor → Run (WebinspectorError × Option C)
  new_over service = channel.client_new service.port service.ssl_enabled >>= λ r.
      if is_success (webinspector_error r.0)
      then ret (WebinspectorError.success, some r.1)
      else ret (webinspector_error r.0, none)

  unfoldable pub webinspector_client_new :
      Option Device → Option Descriptor → Run (WebinspectorError × Option C)
  webinspector_client_new none service = ret (WebinspectorError.invalid_arg, none)
  webinspector_client_new (some device) none = ret (WebinspectorError.invalid_arg, none)
  webinspector_client_new (some device) (some service) =
      if service.port == 0 then ret (WebinspectorError.invalid_arg, none) else new_over service

  unfoldable pub webinspector_client_free : Option C → Run WebinspectorError
  webinspector_client_free none = ret WebinspectorError.invalid_arg
  webinspector_client_free (some c) = channel.client_free c >>= λ e. ret (webinspector_error e)

  abbrev construct : Device → Option Descriptor → Run (WebinspectorError × Option C)
  construct device service = webinspector_client_new (some device) service

module _ {P C H : Type 0} (dicts : Dicts P) (channel : SecureChannel P C) (usbmuxd : Usbmuxd P H)
    (keys : Keys P H) where
  abbrev pub Started : Type 0
  Started = WebinspectorError × Option C × Device × H

  unfoldable pub webinspector_client_start_service : Device → Option Text → H → Run Started
  webinspector_client_start_service device label h =
      service_client_factory_start_service dicts channel usbmuxd keys is_success (construct channel)
        device service_name label h
      >>= λ m. ret (code_of m.1, m.2, m.3, m.4)

  -- A client that client_new made.
  abbrev pub Connected : Descriptor → Option C → Type 0
  Connected d client =
      (c : C) × (channel.client_new d.port d.ssl_enabled ≡ ret (PlistServiceError.success, c))
      × (client ≡ some c)

  is_success→eq : (e : WebinspectorError) → is_success e ≡ true → e ≡ WebinspectorError.success
  is_success→eq WebinspectorError.success t = refl
  is_success→eq _ t = cc
