-- ===== src/Lockdown/Calls.antt =====
-- src/lockdown.c: the requests that lockdownd answers with a property list.
use libimobiledevice.Common.{Option, none, some, if◌then◌else◌}
use libimobiledevice.Common.Bytes.{codes}
use libimobiledevice.Common.Run.{Run, ret, ◌>>=◌}
use libimobiledevice.PlistService.Secure.{SecureChannel}
use libimobiledevice.DeviceLink.{Text, is_dict}
use libimobiledevice.Dictionary.{Dicts, item_in, string_in, string_of, set_string, set_if}
use libimobiledevice.Lockdown.Error.{LockdownError, is_success, lockdownd_error}
use libimobiledevice.Lockdown.Client.{Client, lockdown_check_result}

module _ {P : Type 0} (dicts : Dicts P) where
  unfoldable pub plist_dict_add_label : P → Option Text → P
  plist_dict_add_label plist none = plist
  plist_dict_add_label plist (some label) =
      if is_dict (dicts.plist.node_type plist)
      then set_string dicts plist (codes "Label") label
      else plist

  -- A new request starts with the label.
  unfoldable pub labelled : {C : Type 0} → Client C → P
  labelled client = plist_dict_add_label dicts.new_dict client.label

  unfoldable pub request : {C : Type 0} → Client C → Text → P
  request client name = set_string dicts (labelled client) (codes "Request") name

  unfoldable pub type_result : Option P → LockdownError × Option Text
  type_result dict = elim (string_in dicts (item_in dicts dict (codes "Type"))) [
    | none ↦ (LockdownError.unknown_error, none)
    | some t ↦ (LockdownError.success, some t)
  ]

  -- The domain and the key that GetValue, SetValue and RemoveValue are about.
  unfoldable pub value_request : {C : Type 0} → Client C → Option Text → Option Text → Text → P
  value_request client domain key name =
      set_string dicts
        (set_if dicts (set_if dicts (labelled client) (codes "Domain") domain) (codes "Key") key)
        (codes "Request") name

-- Pointers to clients and results are not NULL. A result that is not stored is `none`.
module _ {P C : Type 0} (dicts : Dicts P) (channel : SecureChannel P C) where
  abbrev pub Outcome : Type 0
  Outcome = Run (LockdownError × Client C)

  abbrev pub Reply : Type 0
  Reply = Run (LockdownError × Option P × Client C)

  unfoldable pub lockdownd_client_set_label : Client C → Option Text → Client C
  lockdownd_client_set_label client label = record client { label = label }

  unfoldable pub lockdownd_receive : Client C → Reply
  lockdownd_receive client = channel.receive_plist client.parent >>= λ r.
      ret (lockdownd_error r.0, r.1, record client { parent = r.2 })

  unfoldable pub lockdownd_send : Client C → P → Outcome
  lockdownd_send client plist = channel.send_xml_plist client.parent plist >>= λ r.
      ret (lockdownd_error r.0, record client { parent = r.1 })

  -- A request, and its answer if it has been sent.
  unfoldable pub exchange : Client C → P → Reply
  exchange client dict = lockdownd_send client dict >>= λ r.
      if is_success r.0 then lockdownd_receive r.1 else ret (r.0, none, r.1)

  -- The same where the code of lockdownd_send is not looked at.
  unfoldable pub exchange_unchecked : Client C → P → Reply
  exchange_unchecked client dict = lockdownd_send client dict >>= λ r. lockdownd_receive r.1

  unfoldable pub lockdownd_query_type : Client C → Run (LockdownError × Option Text × Client C)
  lockdownd_query_type client =
      exchange_unchecked client (request dicts client (codes "QueryType")) >>= λ r.
      if is_success r.0
      then (let t = type_result dicts r.1 in ret (t.0, t.1, r.2))
      else ret (r.0, none, r.2)

  -- The request, and the verdict on the answer to it.
  unfoldable pub checked : Client C → P → Text → Reply
  checked client dict name = exchange client dict >>= λ r.
      if is_success r.0
      then ret (lockdown_check_result dicts r.1 (some name), r.1, r.2)
      else ret (r.0, none, r.2)

  unfoldable pub lockdownd_get_value : Client C → Option Text → Option Text → Reply
  lockdownd_get_value client domain key =
      checked client (value_request dicts client domain key (codes "GetValue")) (codes "GetValue")
      >>= λ r.
          if is_success r.0
          then ret (r.0, item_in dicts r.1 (codes "Value"), r.2)
          else ret (r.0, none, r.2)

  unfoldable pub lockdownd_set_value : Client C → Option Text → Option Text → Option P → Outcome
  lockdownd_set_value client domain key none = ret (LockdownError.invalid_arg, client)
  lockdownd_set_value client domain key (some value) =
      checked client
        (dicts.set_item (value_request dicts client domain key (codes "SetValue")) (codes "Value")
          value)
        (codes "SetValue")
      >>= λ r. ret (r.0, r.2)

  unfoldable pub lockdownd_remove_value : Client C → Option Text → Option Text → Outcome
  lockdownd_remove_value client domain key =
      checked client (value_request dicts client domain key (codes "RemoveValue"))
        (codes "RemoveValue")
      >>= λ r. ret (r.0, r.2)

  -- A value that is no string leaves the text where it was.
  unfoldable pub text_value : Client C → Text → Run (LockdownError × Option Text × Client C)
  text_value client key = lockdownd_get_value client none (some key) >>= λ r.
      if is_success r.0 then ret (r.0, string_of dicts r.1, r.2) else ret (r.0, none, r.2)

  unfoldable pub lockdownd_get_device_udid : Client C → Run (LockdownError × Option Text × Client C)
  lockdownd_get_device_udid client = text_value client (codes "UniqueDeviceID")

  unfoldable pub lockdownd_get_device_name : Client C → Run (LockdownError × Option Text × Client C)
  lockdownd_get_device_name client = text_value client (codes "DeviceName")

  -- Any code of the two calls is left aside: the answer alone decides, and there has to be one.
  unfoldable pub verdict : Client C → P → Text → Outcome
  verdict client dict name = exchange_unchecked client dict >>= λ r. elim r.1 [
    | none ↦ ret (LockdownError.plist_error, r.2)
    | some answer ↦ ret (lockdown_check_result dicts (some answer) (some name), r.2)
  ]

  unfoldable pub lockdownd_enter_recovery : Client C → Outcome
  lockdownd_enter_recovery client =
      exchange_unchecked client (request dicts client (codes "EnterRecovery")) >>= λ r.
      ret (lockdown_check_result dicts r.1 (some (codes "EnterRecovery")), r.2)

  unfoldable pub lockdownd_goodbye : Client C → Outcome
  lockdownd_goodbye client =
      verdict client (request dicts client (codes "Goodbye")) (codes "Goodbye")

  -- By whether there is a session.
  unfoldable pub activate_in : Option Text → Client C → Option P → Outcome
  activate_in none client activation_record = ret (LockdownError.no_running_session, client)
  activate_in (some id) client none = ret (LockdownError.invalid_arg, client)
  activate_in (some id) client (some activation_record) =
      verdict client
        (dicts.set_item (request dicts client (codes "Activate")) (codes "ActivationRecord")
          activation_record)
        (codes "Activate")

  unfoldable pub lockdownd_activate : Client C → Option P → Outcome
  lockdownd_activate client activation_record =
      activate_in client.session_id client activation_record

  unfoldable pub deactivate_in : Option Text → Client C → Outcome
  deactivate_in none client = ret (LockdownError.no_running_session, client)
  deactivate_in (some id) client =
      verdict client (request dicts client (codes "Deactivate")) (codes "Deactivate")

  unfoldable pub lockdownd_deactivate : Client C → Outcome
  lockdownd_deactivate client = deactivate_in client.session_id client
