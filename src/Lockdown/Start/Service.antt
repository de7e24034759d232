-- ===== src/Lockdown/Start/Service.antt =====
-- src/lockdown.c: starting a service on the device.
use libimobiledevice.Common.{ℕ, ◌%◌, ◌^◌, Bool, true, false, Option, none, some, if◌then◌else◌}
use libimobiledevice.Common.Bytes.{codes}
use libimobiledevice.Common.Run.{Run, ret, ◌>>=◌}
use libimobiledevice.PlistService.Secure.{SecureChannel}
use libimobiledevice.DeviceLink.{Text}
use libimobiledevice.Dictionary.{Dicts, item_in, string_in, flag_in, is_uint, is_data, set_string}
use libimobiledevice.Userpref.{UserprefError, Usbmuxd, userpref_read_pair_record, escrow_bag_key}
use libimobiledevice.Lockdown.Error.{LockdownError, is_success, lockdownd_strtoerr}
use libimobiledevice.Lockdown.Client.{Client, lockdown_check_result}
use libimobiledevice.Lockdown.Calls.{exchange, request}

-- struct lockdownd_service_descriptor; the identifier of a descriptor that has not been filled in
-- is NULL.
pub record Descriptor : Type 0 where
  pub port : ℕ
  pub ssl_enabled : Bool
  pub identifier : Option Text

-- The code where no pair record could be read.
unfoldable pub bag_error : UserprefError → LockdownError
bag_error UserprefError.read_error = LockdownError.receive_timeout
bag_error _ = LockdownError.invalid_conf

-- A descriptor that is used again is reset first, but for its identifier.
unfoldable pub reset : Option Descriptor → Option Descriptor
reset none = none
reset (some d) = some (record d { port = 0; ssl_enabled = false })

module _ {P : Type 0} (dicts : Dicts P) where
  -- The port is stored in 16 bits; other items than a number leave it 0.
  unfoldable pub port_in : Option P → ℕ
  port_in none = 0
  port_in (some node) =
      if is_uint (dicts.plist.node_type node)
      then elim (dicts.plist.uint_val node) [ none ↦ 0 | some v ↦ v % 2 ^ 16 ]
      else 0

  unfoldable pub descriptor_of : Text → Option P → Descriptor
  descriptor_of identifier dict = record {
    port = port_in (item_in dicts dict (codes "Port"));
    ssl_enabled = flag_in dicts (item_in dicts dict (codes "EnableServiceSSL"));
    identifier = some identifier;
  }

  -- The code for an answer that lockdown_check_result has refused.
  unfoldable pub refusal : LockdownError → Option P → LockdownError
  refusal e dict = elim (string_in dicts (item_in dicts dict (codes "Error"))) [
    | none ↦ e
    | some error ↦ lockdownd_strtoerr error
  ]

  unfoldable pub service_started :
      Text → Option P → Option Descriptor → LockdownError × Option Descriptor
  service_started identifier none service = (LockdownError.plist_error, service)
  service_started identifier (some dict) service =
      let e = lockdown_check_result dicts (some dict) (some (codes "StartService")) in
      if is_success e
      then (LockdownError.success, some (descriptor_of identifier (some dict)))
      else (refusal e (some dict), service)

  -- The request with the escrow bag of the pair record, which has to have one.
  unfoldable pub add_escrow_bag : UserprefError → Option P → P → LockdownError × Option P
  add_escrow_bag e none dict = (bag_error e, none)
  add_escrow_bag e (some pair_record) dict = elim (dicts.get_item pair_record escrow_bag_key) [
    | none ↦ (LockdownError.invalid_conf, none)
    | some bag ↦
        if is_data (dicts.plist.node_type bag)
        then (LockdownError.success, some (dicts.set_item dict escrow_bag_key bag))
        else (LockdownError.invalid_conf, none)
  ]

  unfoldable pub service_request : {C : Type 0} → Client C → Text → P
  service_request client identifier =
      set_string dicts (request dicts client (codes "StartService")) (codes "Service") identifier

module _ {P C : Type 0} (dicts : Dicts P) (channel : SecureChannel P C) where
  module _ {H : Type 0} (usbmuxd : Usbmuxd P H) where
    unfoldable pub lockdownd_build_start_service_request :
        Client C → Text → Bool → H → LockdownError × Option P
    lockdownd_build_start_service_request client identifier false h =
        (LockdownError.success, some (service_request dicts client identifier))
    lockdownd_build_start_service_request client identifier true h =
        let r = userpref_read_pair_record usbmuxd client.device.udid h in
        add_escrow_bag dicts r.0 r.1 (service_request dicts client identifier)

    abbrev pub Service : Type 0
    Service = Run (LockdownError × Option Descriptor × Client C)

    -- With the request that has been built.
    unfoldable pub start_with :
        LockdownError × Option P → Client C → Text → Option Descriptor → Service
    start_with (e, none) client identifier service = ret (e, service, client)
    start_with (e, some dict) client identifier service =
        exchange dicts channel client dict >>= λ r.
        if is_success r.0
        then (let s = service_started dicts identifier r.1 service in ret (s.0, s.1, r.2))
        else ret (r.0, service, r.2)

    -- The descriptor is that which `*service` points to before and after, `none` for NULL.
    unfoldable pub lockdownd_do_start_service :
        Client C → Option Text → Bool → Option Descriptor → H → Service
    lockdownd_do_start_service client none send_escrow_bag service h =
        ret (LockdownError.invalid_arg, service, client)
    lockdownd_do_start_service client (some identifier) send_escrow_bag service h =
        start_with (lockdownd_build_start_service_request client identifier send_escrow_bag h)
          client identifier (reset service)

    unfoldable pub lockdownd_start_service :
        Client C → Option Text → Option Descriptor → H → Service
    lockdownd_start_service client identifier service h =
        lockdownd_do_start_service client identifier false service h

    unfoldable pub lockdownd_start_service_with_escrow_bag :
        Client C → Option Text → Option Descriptor → H → Service
    lockdownd_start_service_with_escrow_bag client identifier service h =
        lockdownd_do_start_service client identifier true service h
