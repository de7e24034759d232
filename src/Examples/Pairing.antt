-- ===== src/Examples/Pairing.antt =====
-- The theorems on pairing.
use libimobiledevice.Common.{◌≡◌, refl, false, List, [], ◌∷◌, ◌++◌, none, some, inl}
use libimobiledevice.Common.Bytes.{codes}
use libimobiledevice.Common.Run.{ret}
use libimobiledevice.DeviceLink.{Text}
use libimobiledevice.Dictionary.{item_in, string_in, string_of, set_string, set_if}
use libimobiledevice.Userpref.{
  userpref_read_system_buid, pair_record_set_host_id, root_private_key_key, host_private_key_key,
  host_id_key, system_buid_key,
}
use libimobiledevice.Lockdown.Error.{
  LockdownError, lockdownd_error, lockdownd_strtoerr, strtoerr_in, lockdownd_error_str_map,
}
use libimobiledevice.Lockdown.Client.{
  Client, lockdown_check_result, answer_code, result_code, matches, error_code,
}
use libimobiledevice.Lockdown.Calls.{
  plist_dict_add_label, labelled, value_request, lockdownd_send, lockdownd_receive, exchange,
  checked, lockdownd_get_value,
}
use libimobiledevice.Lockdown.Pair.Record.{
  Verb, verb_name, verb_match, given, find_source, own_source, new_source, generate_error, data_of,
  filled_record, generated, pair_record_generate, lockdownd_get_device_public_key_as_key_data,
}
use libimobiledevice.Lockdown.Pair.Request.{
  public_record, with_options, pair_request, pair_accepted, pair_code, after_pairing, pair_answered,
  pair_with, lockdownd_do_pair,
}
use libimobiledevice.Lockdown.Pair.Secret.{guarded, do_pair-guarded}
use libimobiledevice.Lockdown.Pair.Records.{do_pair-stored}
use libimobiledevice.Examples.Nodes.{Node, dict_of, nodes, nodes-DictLaws, Phone, phone, answers}
use libimobiledevice.Examples.Stored.{Store, keeper, maker, maker-KeepsRecords}
use libimobiledevice.Examples.Lockdown.{reply, client}

-- The device's public key, its WiFi address, and what it says to Pair.
abbrev inbox : List (Text × Node) → List Node
inbox l =
    reply (codes "GetValue") ((codes "Value", Node.blob (7 ∷ [])) ∷ [])
    ∷ reply (codes "GetValue") ((codes "Value", Node.text (codes "w")) ∷ [])
    ∷ reply (codes "Pair") l
    ∷ []

abbrev asked : Text → Node
asked key =
    dict_of ((codes "Request", Node.text (codes "GetValue")) ∷ (codes "Key", Node.text key) ∷ [])

abbrev record_entries : List (Text × Node)
record_entries =
    (codes "HostID", Node.text (codes "h")) ∷ (codes "SystemBUID", Node.text (codes "b")) ∷ []

abbrev outbox : List Node
outbox =
    asked (codes "DevicePublicKey")
    ∷ asked (codes "WiFiAddress")
    ∷ dict_of (
        (codes "ProtocolVersion", Node.text (codes "2"))
        ∷ (codes "Request", Node.text (codes "Pair"))
        ∷ (codes "PairRecord", dict_of record_entries)
        ∷ [])
    ∷ []

abbrev saved : Node
saved = dict_of (
    (codes "WiFiMACAddress", Node.text (codes "w")) ∷ record_entries
    ++ ((codes "RootPrivateKey", Node.blob (9 ∷ [])) ∷ []))

abbrev start : List (Text × Node) → Client Phone
start l = client (phone [] (inbox l) false) none false

abbrev after : Client Phone
after = client (phone outbox [] false) none false

denied :
    lockdownd_do_pair nodes
      (answers [])
      keeper
      maker
      (start ((codes "Error", Node.text (codes "UserDeniedPairing")) ∷ []))
      none
      Verb.pair
      none
      (some (5 ∷ []))
    ≡ ret (
      LockdownError.user_denied_pairing,
      some (reply (codes "Pair") ((codes "Error", Node.text (codes "UserDeniedPairing")) ∷ [])),
      after,
      some (5 ∷ []),
    )
unfolding lockdownd_do_pair given find_source own_source new_source pair_record_generate
    lockdownd_get_device_public_key_as_key_data data_of filled_record generated generate_error
    lockdownd_get_value checked exchange lockdownd_send lockdownd_receive lockdownd_error
    value_request labelled plist_dict_add_label set_if set_string lockdown_check_result answer_code
    result_code error_code matches item_in string_in string_of pair_with pair_request public_record
    with_options verb_name verb_match pair_answered pair_code pair_accepted after_pairing
    userpref_read_system_buid pair_record_set_host_id host_id_key system_buid_key
    root_private_key_key host_private_key_key lockdownd_strtoerr strtoerr_in lockdownd_error_str_map
denied = refl

do_pair-stored_example : ◌≡◌ {A = Store} (some (5 ∷ [])) (some (5 ∷ []))
do_pair-stored_example =
    do_pair-stored nodes (answers []) keeper maker (λ h. h) maker-KeepsRecords
      (start ((codes "Error", Node.text (codes "UserDeniedPairing")) ∷ [])) none Verb.pair none
      (some (5 ∷ [])) LockdownError.user_denied_pairing
      (some (reply (codes "Pair") ((codes "Error", Node.text (codes "UserDeniedPairing")) ∷ [])))
      after (some (5 ∷ [])) denied (inl (λ e. cc))

do_pair-guarded_example :
    lockdownd_do_pair nodes
      (guarded nodes (answers []))
      keeper
      maker
      (start [])
      none
      Verb.pair
      none
      none
    ≡ lockdownd_do_pair nodes (answers []) keeper maker (start []) none Verb.pair none none
do_pair-guarded_example =
    do_pair-guarded nodes nodes-DictLaws (answers []) keeper maker (start []) none Verb.pair none
      none
