-- ===== src/Examples/Handshakes.antt =====
-- The theorems on sessions for new clients and on the services started in them.
use libimobiledevice.Common.{
  ℕ, ◌≡◌, ◌≢◌, ◌⊎◌, ◌<◌, ◌^◌, refl, true, false, List, [], ◌∷◌, ◌++◌, Option, none, some,
}
use libimobiledevice.Common.Bytes.{codes}
use libimobiledevice.Common.Run.{Run, ret}
use libimobiledevice.Service.{ServiceError}
use libimobiledevice.DeviceLink.{Text}
use libimobiledevice.Dictionary.{item_in, string_in, string_of, flag_in, set_string, set_if}
use libimobiledevice.Userpref.{
  userpref_read_system_buid, userpref_read_pair_record, read_result, parse_record,
  pair_record_get_host_id, host_id_key,
}
use libimobiledevice.Lockdown.Error.{LockdownError, lockdownd_error}
use libimobiledevice.Lockdown.Client.{
  Device, Client, lockdown_check_result, answer_code, result_code, matches,
}
use libimobiledevice.Lockdown.Calls.{
  plist_dict_add_label, labelled, request, value_request, lockdownd_send, lockdownd_receive,
  exchange, exchange_unchecked, checked, lockdownd_get_value, type_result, lockdownd_query_type,
}
use libimobiledevice.Lockdown.Session.{
  session_stopped, lockdownd_stop_session, stop_current, start_session_request, session_named,
  session_secured, session_opened, session_started, start_session_over, lockdownd_start_session,
  lockdownd_client_free, lockdownd_client_free_simple,
}
use libimobiledevice.Lockdown.Session.Frame.{Moved}
use libimobiledevice.Lockdown.Start.New.{
  idevice_device_version, is_space, is_digit, more_digits, digits, scan_int, scan_next, patch_of,
  scan_version, device_class_of, version_of, class_of, is_lockdownd, ask_text, learn_version,
  learn_class, introduce, lockdownd_client_new,
}
use libimobiledevice.Lockdown.Start.Handshake.{
  is_read_error, is_older, find_pairing, validate_older, known_host_id, open_session, handshake,
  hand_out, lockdownd_client_new_with_handshake,
}
use libimobiledevice.Lockdown.Start.Service.{
  Descriptor, reset, port_in, descriptor_of, service_started, service_request,
  lockdownd_build_start_service_request, start_with, lockdownd_do_start_service,
  lockdownd_start_service,
}
use libimobiledevice.Lockdown.Start.HandedOut.{InSession, new_with_handshake-HandedOut}
use libimobiledevice.Lockdown.Start.Descriptors.{Described, do_start_service-Described}
use libimobiledevice.Lockdown.Start.Factory.{
  construct_client, start_in_session, service_client_factory_start_service,
  factory_start_service-Constructed,
}
use libimobiledevice.Examples.Nodes.{Node, dict_of, nodes, Phone, phone, answers}
use libimobiledevice.Examples.Stored.{
  Store, keeper, maker, encode, depth, to_bin, from_memory, decode,
}
use libimobiledevice.Examples.Lockdown.{reply, client}

abbrev pub here : Device
here = record { udid = codes "u"; mux_id = 1; version = 0; device_class = 0 }

abbrev pub known : Device
known = record { udid = codes "u"; mux_id = 1; version = 786688; device_class = 1 }

abbrev pub inbox : List Node
inbox =
    reply (codes "QueryType") ((codes "Type", Node.text (codes "com.apple.mobile.lockdown")) ∷ [])
    ∷ reply (codes "GetValue") ((codes "Value", Node.text (codes "12.1")) ∷ [])
    ∷ reply (codes "GetValue") ((codes "Value", Node.text (codes "iPhone")) ∷ [])
    ∷ reply (codes "StartSession") ((codes "SessionID", Node.text (codes "s")) ∷ [])
    ∷ reply (codes "StartService") ((codes "Port", Node.number 1025) ∷ [])
    ∷ []

abbrev pub host : Store
host = some (to_bin (dict_of ((codes "HostID", Node.text (codes "h")) ∷ [])))

abbrev asked : Text → Node
asked key =
    dict_of ((codes "Request", Node.text (codes "GetValue")) ∷ (codes "Key", Node.text key) ∷ [])

abbrev pub sent : List Node
sent =
    dict_of ((codes "Request", Node.text (codes "QueryType")) ∷ [])
    ∷ asked (codes "ProductVersion")
    ∷ asked (codes "DeviceClass")
    ∷ dict_of (
        (codes "SystemBUID", Node.text (codes "b"))
        ∷ (codes "HostID", Node.text (codes "h"))
        ∷ (codes "Request", Node.text (codes "StartSession"))
        ∷ [])
    ∷ []

abbrev service_answer : Node
service_answer = reply (codes "StartService") ((codes "Port", Node.number 1025) ∷ [])

abbrev pub in_session : Client Phone
in_session = record (client (phone sent (service_answer ∷ []) false) (some (codes "s")) false) {
  device = known;
}

pub shaken :
    lockdownd_client_new_with_handshake nodes (answers inbox) keeper maker here none host
    ≡ ret (LockdownError.success, some in_session, known, host)
unfolding lockdownd_client_new_with_handshake lockdownd_client_new introduce learn_version
    learn_class ask_text is_lockdownd version_of class_of scan_version scan_int scan_next patch_of
    digits more_digits is_digit is_space device_class_of idevice_device_version lockdownd_query_type
    type_result handshake is_read_error find_pairing validate_older is_older known_host_id
    open_session hand_out userpref_read_pair_record read_result parse_record pair_record_get_host_id
    host_id_key lockdownd_start_session stop_current start_session_over start_session_request
    request labelled plist_dict_add_label set_if set_string userpref_read_system_buid lockdownd_send
    lockdownd_receive lockdownd_error session_started session_named session_opened session_secured
    lockdown_check_result answer_code result_code matches item_in string_in string_of flag_in
    lockdownd_get_value checked exchange exchange_unchecked value_request to_bin from_memory decode
    encode depth
shaken = refl

new_with_handshake-HandedOut_example :
    ((LockdownError.success ≢ LockdownError.success) × (some in_session ≡ none))
    ⊎ ((LockdownError.success ≡ LockdownError.success)
        × (c : Client Phone) × (some in_session ≡ some c)
        × InSession nodes (answers inbox) keeper maker c)
new_with_handshake-HandedOut_example =
    new_with_handshake-HandedOut nodes (answers inbox) keeper maker here none host
      LockdownError.success (some in_session) known host shaken

abbrev service_sent : Node
service_sent = dict_of (
    (codes "Service", Node.text (codes "afc"))
    ∷ (codes "Request", Node.text (codes "StartService"))
    ∷ [])

abbrev served : Client Phone
served = record in_session { parent = phone (sent ++ (service_sent ∷ [])) [] false }

abbrev afc_service : Descriptor
afc_service = record { port = 1025; ssl_enabled = false; identifier = some (codes "afc") }

service_starts :
    lockdownd_do_start_service nodes
      (answers inbox)
      keeper
      in_session
      (some (codes "afc"))
      false
      none
      host
    ≡ ret (LockdownError.success, some afc_service, served)
unfolding lockdownd_do_start_service lockdownd_build_start_service_request service_request
    start_with service_started descriptor_of port_in reset exchange lockdownd_send lockdownd_receive
    lockdownd_error request labelled plist_dict_add_label set_string lockdown_check_result
    answer_code result_code matches item_in string_in flag_in
service_starts = refl

do_start_service-Described_example :
    Described (codes "afc") (reset none) LockdownError.success (some afc_service)
    × Moved in_session served
do_start_service-Described_example =
    do_start_service-Described nodes (answers inbox) keeper in_session (codes "afc") false none host
      LockdownError.success (some afc_service) served service_starts

freed : lockdownd_client_free nodes (answers inbox) (some served) ≡ ret LockdownError.success
unfolding lockdownd_client_free lockdownd_client_free_simple stop_current lockdownd_stop_session
    exchange_unchecked lockdownd_send lockdownd_receive lockdownd_error request labelled
    plist_dict_add_label set_string session_stopped
freed = refl

-- A constructor that keeps the port, and whose code is always 0.
abbrev construct : Device → Option Descriptor → Run (ℕ × Option ℕ)
construct d none = ret (0, none)
construct d (some s) = ret (0, some s.port)

made :
    service_client_factory_start_service nodes
      (answers inbox)
      keeper
      maker
      (λ e. true)
      construct
      here
      (codes "afc")
      none
      host
    ≡ ret (ServiceError.success, some 0, some 1025, known, host)
unfolding service_client_factory_start_service start_in_session construct_client
    lockdownd_start_service lockdownd_client_free lockdownd_client_free_simple
made = rw shaken (rw service_starts (rw freed refl))

factory_start_service-Constructed_example :
    (d' : Device) × (d : Descriptor) × (e : ℕ) × (construct d' (some d) ≡ ret (e, some 1025))
    × (true ≡ true)
    × (d.identifier ≡ some (codes "afc"))
    × (d.port < 2 ^ 16)
factory_start_service-Constructed_example =
    factory_start_service-Constructed nodes (answers inbox) keeper maker (λ e. true) construct here
      (codes "afc") none host (ServiceError.success, some 0, some 1025, known, host) made refl
