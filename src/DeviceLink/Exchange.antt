-- ===== src/DeviceLink/Exchange.antt =====
-- src/device_link_service.c: the operations of the client on its property list channel.
use libimobiledevice.Common.{ℕ, not, ◌||◌, [], ◌∷◌, Option, none, some, if◌then◌else◌}
use libimobiledevice.Common.Run.{Run, ret, ◌>>=◌}
use libimobiledevice.PlistService.{Channel}
use libimobiledevice.DeviceLink.{
  Text, DeviceLinkError, Plist, is_success, device_link_error, is_dict, process_message_name,
  disconnect_name, empty_parameter, ping_name,
}
use libimobiledevice.DeviceLink.Message.{
  device_link_service_get_message, versions_ok, version_error, ready_error, process_result,
}

-- The functions take what the client pointer leads to, `none` for NULL: the pointer to its
-- property list client. Pointers to results are not NULL and lead to NULL.
module _ {P C : Type 0} (plist : Plist P) (channel : Channel P C) where
  abbrev pub Answer : Type 0
  Answer = Run (DeviceLinkError × Option C)

  unfoldable pub send_to : C → Option P → Answer
  send_to c p = channel.send c p >>= λ r. ret (device_link_error r.0, some r.1)

  -- The last step: DLMessageDeviceReady.
  unfoldable pub await_ready : C → Answer
  await_ready c = channel.receive_plist c >>= λ r.
      let e = device_link_error r.0 in
      if not (is_success e) then ret (e, some r.2) else ret (ready_error plist r.1, some r.2)

  -- The reply DLVersionsOk, and what follows.
  unfoldable pub accept_version : ℕ → C → Answer
  accept_version major c = channel.send c (some (versions_ok plist major)) >>= λ r.
      let e = device_link_error r.0 in
      if not (is_success e) then ret (e, some r.1) else await_ready r.1

  unfoldable pub device_link_service_version_exchange : Option C → ℕ → ℕ → Answer
  device_link_service_version_exchange none major minor = ret (DeviceLinkError.invalid_arg, none)
  device_link_service_version_exchange (some c) major minor = channel.receive_plist c >>= λ r.
      let e = device_link_error r.0 in
      if not (is_success e)
      then ret (e, some r.2)
      else (let v = version_error plist r.1 major minor in
          if not (is_success v) then ret (v, some r.2) else accept_version major r.2)

  unfoldable pub device_link_service_disconnect : Option C → Option Text → Answer
  device_link_service_disconnect none message = ret (DeviceLinkError.invalid_arg, none)
  device_link_service_disconnect (some c) message = send_to c (
      some (
        plist.new_array (
          plist.new_string disconnect_name
          ∷ plist.new_string (elim message [ none ↦ empty_parameter | some m ↦ m ])
          ∷ [])))

  unfoldable pub device_link_service_send_ping : Option C → Option Text → Answer
  device_link_service_send_ping none message = ret (DeviceLinkError.invalid_arg, none)
  device_link_service_send_ping (some c) none = ret (DeviceLinkError.invalid_arg, some c)
  device_link_service_send_ping (some c) (some m) =
      if channel.is_null c
      then ret (DeviceLinkError.invalid_arg, some c)
      else send_to c (some (plist.new_array (plist.new_string ping_name ∷ plist.new_string m ∷ [])))

  unfoldable pub device_link_service_send_process_message : Option C → Option P → Answer
  device_link_service_send_process_message none message = ret (DeviceLinkError.invalid_arg, none)
  device_link_service_send_process_message (some c) none = ret (DeviceLinkError.invalid_arg, some c)
  device_link_service_send_process_message (some c) (some m) =
      if channel.is_null c || not (is_dict (plist.node_type m))
      then ret (DeviceLinkError.invalid_arg, some c)
      else send_to c (some (plist.new_array (plist.new_string process_message_name ∷ m ∷ [])))

  -- The code, `*msg_plist`, the message string, the client.
  unfoldable pub device_link_service_receive_message :
      Option C → Run (DeviceLinkError × Option P × Option Text × Option C)
  device_link_service_receive_message none = ret (DeviceLinkError.invalid_arg, none, none, none)
  device_link_service_receive_message (some c) =
      if channel.is_null c
      then ret (DeviceLinkError.invalid_arg, none, none, some c)
      else (channel.receive_plist c >>= λ r.
          let e = device_link_error r.0 in
          if not (is_success e)
          then ret (e, r.1, none, some r.2)
          else elim (device_link_service_get_message plist r.1) [
            | none ↦ ret (DeviceLinkError.plist_error, r.1, none, some r.2)
            | some m ↦ ret (DeviceLinkError.success, r.1, some m, some r.2)
          ])

  -- The code, `*message`, the client.
  unfoldable pub device_link_service_receive_process_message :
      Option C → Run (DeviceLinkError × Option P × Option C)
  device_link_service_receive_process_message none = ret (DeviceLinkError.invalid_arg, none, none)
  device_link_service_receive_process_message (some c) =
      if channel.is_null c
      then ret (DeviceLinkError.invalid_arg, none, some c)
      else (channel.receive_plist c >>= λ r.
          let e = device_link_error r.0 in
          if not (is_success e)
          then ret (e, none, some r.2)
          else (let q = process_result plist r.1 in ret (q.0, q.1, some r.2)))

  unfoldable pub device_link_service_send : Option C → Option P → Answer
  device_link_service_send none p = ret (DeviceLinkError.invalid_arg, none)
  device_link_service_send (some c) none = ret (DeviceLinkError.invalid_arg, some c)
  device_link_service_send (some c) (some p) = send_to c (some p)

  unfoldable pub device_link_service_receive :
      Option C → Run (DeviceLinkError × Option P × Option C)
  device_link_service_receive none = ret (DeviceLinkError.invalid_arg, none, none)
  device_link_service_receive (some c) =
      channel.receive_plist c >>= λ r. ret (device_link_error r.0, r.1, some r.2)
