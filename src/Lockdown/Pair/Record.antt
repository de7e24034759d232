-- ===== src/Lockdown/Pair/Record.antt =====
-- src/lockdown.c: the pair record that a request is about.
use libimobiledevice.Common.{ℕ, List, Option, none, some, if◌then◌else◌}
use libimobiledevice.Common.Bytes.{codes}
use libimobiledevice.Common.Run.{Run, ret, ◌>>=◌}
use libimobiledevice.PlistService.Secure.{SecureChannel}
use libimobiledevice.DeviceLink.{Text}
use libimobiledevice.Dictionary.{Dicts, set_string, set_if}
use libimobiledevice.Userpref.{
  UserprefError, Usbmuxd, userpref_read_system_buid, system_buid_key, pair_record_set_host_id,
  userpref_read_pair_record,
}
use libimobiledevice.Lockdown.Error.{LockdownError, is_success}
use libimobiledevice.Lockdown.Client.{Client}
use libimobiledevice.Lockdown.Calls.{lockdownd_get_value}

-- struct lockdownd_pair_record. `none` is NULL.
pub record PairRecord : Type 0 where
  pub device_certificate : Option Text
  pub host_certificate : Option Text
  pub root_certificate : Option Text
  pub host_id : Option Text
  pub system_buid : Option Text

-- The three requests that lockdownd_do_pair is called for.
pub data Verb : Type 0 where
  pair validate_pair unpair : Verb

unfoldable pub verb_name : Verb → Text
verb_name Verb.pair = codes "Pair"
verb_name Verb.validate_pair = codes "ValidatePair"
verb_name Verb.unpair = codes "Unpair"

-- The name that the answer has to have: any for Unpair.
unfoldable pub verb_match : Verb → Option Text
verb_match Verb.unpair = none
verb_match verb = some (verb_name verb)

-- pair_record_generate_keys_and_certs, which puts keys into a pair record, and generate_uuid, over
-- the state `H` of the computer.
pub record Keys (P H : Type 0) : Type 0 where
  pub generate_keys_and_certs : P → Option (List ℕ) → ℕ → H → UserprefError × P × H
  pub generate_uuid : H → Text × H

-- Where the pair record comes from: with its plist, and the device's WiFi address if asked for.
pub data Source (P : Type 0) : Type 0 where
  external : P → Source P
  internal : P → Option P → Source P

abbrev pub record_of : {P : Type 0} → Source P → P
record_of (Source.external p) = p
record_of (Source.internal p w) = p

-- The code after the keys have been generated: some failures are passed on.
unfoldable pub generate_error : UserprefError → LockdownError
generate_error UserprefError.invalid_arg = LockdownError.invalid_arg
generate_error UserprefError.invalid_conf = LockdownError.invalid_conf
generate_error UserprefError.ssl_error = LockdownError.ssl_error
generate_error _ = LockdownError.success

-- The code where no pair record could be read.
unfoldable pub read_error : UserprefError → LockdownError
read_error UserprefError.success = LockdownError.success
read_error UserprefError.read_error = LockdownError.receive_timeout
read_error _ = LockdownError.invalid_conf

unfoldable pub stored_source :
    {P : Type 0} → UserprefError → Option P → LockdownError × Option (Source P)
stored_source e none = (read_error e, none)
stored_source e (some p) = (LockdownError.success, some (Source.internal p none))

module _ {P : Type 0} (dicts : Dicts P) where
  -- plist_get_data_val into a pointer that is NULL.
  unfoldable pub data_of : Option P → Option (List ℕ)
  data_of none = none
  data_of (some n) = dicts.data_val n

  unfoldable pub lockdownd_pair_record_to_plist : Text → Text → Text → Text → Text → P
  lockdownd_pair_record_to_plist device_certificate host_certificate root_certificate host_id
        system_buid =
      set_string dicts
        (dicts.set_item
          (set_string dicts
            (dicts.set_item
              (dicts.set_item dicts.new_dict (codes "DeviceCertificate")
                (dicts.new_data device_certificate))
              (codes "HostCertificate") (dicts.new_data host_certificate))
            (codes "HostID") host_id)
          (codes "RootCertificate") (dicts.new_data root_certificate))
        (codes "SystemBUID") system_buid

  -- The plist of a given record that names its host and system, if all certificates are there.
  unfoldable pub certified :
      Option Text → Option Text → Option Text → Text → Text → LockdownError × Option (Source P)
  certified (some device) (some host) (some root) host_id system_buid = (
    LockdownError.success,
    some (Source.external (lockdownd_pair_record_to_plist device host root host_id system_buid)),
  )
  certified _ _ _ host_id system_buid = (LockdownError.plist_error, none)

  unfoldable pub identified :
      Option Text → Option Text → PairRecord → Option (LockdownError × Option (Source P))
  identified (some system_buid) (some host_id) r =
      some
        (certified r.device_certificate r.host_certificate r.root_certificate host_id system_buid)
  identified _ _ r = none

  -- `none` where the record of this computer is to be used.
  unfoldable pub given : Option PairRecord → Option (LockdownError × Option (Source P))
  given none = none
  given (some r) = identified r.system_buid r.host_id r

module _ {P H : Type 0} (dicts : Dicts P) (usbmuxd : Usbmuxd P H) (keys : Keys P H) where
  -- A record with new keys, the SystemBUID and a new HostID, whatever the generation came to.
  unfoldable pub filled_record : P → H → P × H
  filled_record record_with_keys h =
      let u = keys.generate_uuid h in
      (
        pair_record_set_host_id dicts
            (set_if dicts record_with_keys system_buid_key (userpref_read_system_buid usbmuxd h))
            u.0,
        u.1,
      )

  unfoldable pub generated : Option (List ℕ) → ℕ → H → LockdownError × Option P × H
  generated public_key version h =
      let g = keys.generate_keys_and_certs dicts.new_dict public_key version h in
      let f = filled_record g.1 g.2 in (generate_error g.0, some f.0, f.1)

module _ {P C H : Type 0} (dicts : Dicts P) (channel : SecureChannel P C) (usbmuxd : Usbmuxd P H)
    (keys : Keys P H) where
  unfoldable pub lockdownd_get_device_public_key_as_key_data :
      Client C → Run (LockdownError × Option (List ℕ) × Client C)
  lockdownd_get_device_public_key_as_key_data client =
      lockdownd_get_value dicts channel client none (some (codes "DevicePublicKey")) >>= λ r.
      if is_success r.0 then ret (r.0, data_of dicts r.1, r.2) else ret (r.0, none, r.2)

  unfoldable pub pair_record_generate :
      Client C → H → Run ((LockdownError × Option P × H) × Client C)
  pair_record_generate client h = lockdownd_get_device_public_key_as_key_data client >>= λ r.
      if is_success r.0
      then ret (generated dicts usbmuxd keys r.1 r.2.device.version h, r.2)
      else ret ((r.0, none, h), r.2)

  -- A new record, and then the WiFi address: the code of that call is not looked at.
  unfoldable pub new_source :
      Client C → H → Run ((LockdownError × Option (Source P)) × Client C × H)
  new_source client h = pair_record_generate client h >>= λ r. elim r.0.1 [
    | none ↦ ret ((r.0.0, none), r.1, r.0.2)
    | some p ↦
        if is_success r.0.0
        then (lockdownd_get_value dicts channel r.1 none (some (codes "WiFiAddress")) >>= λ w.
            ret ((LockdownError.success, some (Source.internal p w.1)), w.2, r.0.2))
        else ret ((r.0.0, none), r.1, r.0.2)
  ]

  unfoldable pub own_source :
      Verb → Client C → H → Run ((LockdownError × Option (Source P)) × Client C × H)
  own_source Verb.pair client h = new_source client h
  own_source verb client h =
      let r = userpref_read_pair_record usbmuxd client.device.udid h in
      ret (stored_source r.0 r.1, client, h)

  unfoldable pub find_source :
      Option (LockdownError × Option (Source P))
      → Verb
      → Client C
      → H
      → Run ((LockdownError × Option (Source P)) × Client C × H)
  find_source (some s) verb client h = ret (s, client, h)
  find_source none verb client h = own_source verb client h
