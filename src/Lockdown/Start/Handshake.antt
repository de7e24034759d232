-- ===== src/Lockdown/Start/Handshake.antt =====
-- src/lockdown.c: a new client with a session, for which the computer is paired if it is not.
use libimobiledevice.Common.{
  Bool, true, false, not, ◌&&◌, Option, none, some, ltb, ◌==◌, if◌then◌else◌,
}
use libimobiledevice.Common.Run.{Run, ret, ◌>>=◌}
use libimobiledevice.PlistService.Secure.{SecureChannel}
use libimobiledevice.DeviceLink.{Text}
use libimobiledevice.Dictionary.{Dicts}
use libimobiledevice.Userpref.{
  UserprefError, Usbmuxd, userpref_read_pair_record, pair_record_get_host_id,
}
use libimobiledevice.Lockdown.Error.{LockdownError, is_success}
use libimobiledevice.Lockdown.Client.{Device, Client}
use libimobiledevice.Lockdown.Session.{lockdownd_start_session, lockdownd_client_free}
use libimobiledevice.Lockdown.Pair.Record.{Keys}
use libimobiledevice.Lockdown.Pair.Request.{lockdownd_pair, lockdownd_validate_pair}
use libimobiledevice.Lockdown.Start.New.{idevice_device_version, lockdownd_client_new}

unfoldable pub is_read_error : UserprefError → Bool
is_read_error UserprefError.read_error = true
is_read_error _ = false

unfoldable pub is_invalid_host_id : LockdownError → Bool
is_invalid_host_id LockdownError.invalid_host_id = true
is_invalid_host_id _ = false

-- The code where the record cannot be read again.
unfoldable pub reread_error : UserprefError → LockdownError
reread_error UserprefError.success = LockdownError.success
reread_error UserprefError.read_error = LockdownError.receive_timeout
reread_error _ = LockdownError.invalid_conf

-- A device that has to validate the pairing first.
unfoldable pub is_older : Device → Bool
is_older device =
    ltb device.version (idevice_device_version 7 0 0) && not (device.device_class == 5)

module _ {P C H : Type 0} (dicts : Dicts P) (channel : SecureChannel P C) (usbmuxd : Usbmuxd P H)
    (keys : Keys P H) where
  -- The code so far, the host id, the client and the records of the computer.
  abbrev pub Progress : Type 0
  Progress = LockdownError × Option Text × Client C × H

  -- Without a record the computer is paired; one without a host id is an error.
  unfoldable pub find_pairing : Option P → Client C → H → Run Progress
  find_pairing none client h =
      lockdownd_pair dicts channel usbmuxd keys client none h >>= λ r. ret (r.0, none, r.2, r.3)
  find_pairing (some pair_record) client h = elim (pair_record_get_host_id dicts pair_record) [
    | none ↦ ret (LockdownError.invalid_conf, none, client, h)
    | some host_id ↦ ret (LockdownError.success, some host_id, client, h)
  ]

  -- A host that the device does not know is paired, and validated once more.
  unfoldable pub validate_again : Progress → Run Progress
  validate_again s =
      if is_success s.0
      then (lockdownd_validate_pair dicts channel usbmuxd keys s.2 none s.3 >>= λ r.
          ret (r.0, s.1, r.2, r.3))
      else ret s

  unfoldable pub validate : Progress → Run Progress
  validate s = lockdownd_validate_pair dicts channel usbmuxd keys s.2 none s.3 >>= λ r.
      if is_invalid_host_id r.0
      then (lockdownd_pair dicts channel usbmuxd keys r.2 none r.3 >>= λ q.
          validate_again (q.0, none, q.2, q.3))
      else ret (r.0, s.1, r.2, r.3)

  -- What older devices need; the code so far is overwritten.
  unfoldable pub validate_older : Progress → Run Progress
  validate_older s = if is_older s.2.device then validate s else ret s

  -- The host id of the record that there is now, if it is not known.
  unfoldable pub known_host_id : Option Text → Client C → H → LockdownError × Option Text
  known_host_id (some host_id) client h = (LockdownError.success, some host_id)
  known_host_id none client h =
      let r = userpref_read_pair_record usbmuxd client.device.udid h in
      (reread_error r.0, elim r.1 [ none ↦ none | some p ↦ pair_record_get_host_id dicts p ])

  unfoldable pub open_session : Progress → Run Progress
  open_session s =
      if is_success s.0
      then (let k = known_host_id s.1 s.2 s.3 in
          if is_success k.0
          then (lockdownd_start_session dicts channel usbmuxd (some s.2) k.1 s.3 >>= λ r.
              ret (r.0, k.1, r.2, s.3))
          else ret (k.0, k.1, s.2, s.3))
      else ret s

  abbrev pub Handshaken : Type 0
  Handshaken = Run (LockdownError × Option (Client C) × Device × H)

  -- The client is handed out with a success, and freed with any other code.
  unfoldable pub hand_out : Progress → Handshaken
  hand_out s =
      if is_success s.0
      then ret (s.0, some s.2, s.2.device, s.3)
      else (lockdownd_client_free dicts channel (some s.2) >>= λ e.
          ret (s.0, none, s.2.device, s.3))

  unfoldable pub handshake : Client C → H → Run Progress
  handshake client h =
      let r = userpref_read_pair_record usbmuxd client.device.udid h in
      if is_read_error r.0
      then ret (LockdownError.receive_timeout, none, client, h)
      else (find_pairing r.1 client h >>= λ s. validate_older s >>= λ t. open_session t)

  unfoldable pub lockdownd_client_new_with_handshake : Device → Option Text → H → Handshaken
  lockdownd_client_new_with_handshake device label h =
      lockdownd_client_new dicts channel device label >>= λ r. elim r.1 [
        | none ↦ ret (r.0, none, device, h)
        | some client ↦ handshake client h >>= λ s. hand_out s
      ]
