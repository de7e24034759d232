-- ===== src/Mobilesync/Answers.antt =====
-- src/mobilesync.c: what the device's answers come to, and the message for changes.
use libimobiledevice.Common.{ℕ, Bool, true, not, [], ◌∷◌, Option, none, some, if◌then◌else◌}
use libimobiledevice.Common.Bytes.{bytes_eq, codes}
use libimobiledevice.DeviceLink.{Text, Plist, is_dict, empty_parameter}
use libimobiledevice.Mobilesync.{MobilesyncError, SyncType}

-- The message that ends a session on the device's side.
unfoldable pub is_cancel : Text → Bool
is_cancel t = bytes_eq t (codes "SDMessageCancelSession")

unfoldable pub is_refusal : Text → Bool
is_refusal t = bytes_eq t (codes "SDMessageRefuseToSyncDataClassWithComputer")

unfoldable pub sync_type_of : Text → Option SyncType
sync_type_of t =
    if bytes_eq t (codes "SDSyncTypeFast")
    then some SyncType.fast
    else if bytes_eq t (codes "SDSyncTypeSlow")
    then some SyncType.slow
    else if bytes_eq t (codes "SDSyncTypeReset")
    then some SyncType.reset
    else none

unfoldable pub remap_name : Text
remap_name = codes "SDMessageRemapRecordIdentifiers"

-- What mobilesync_start stores: the type, the version of the device's data class, the description
-- of an error.
abbrev pub Started : Type 0
Started = Option SyncType × Option ℕ × Option Text

abbrev pub not_started : Started
not_started = (none, none, none)

-- What mobilesync_receive_changes stores: the entities, whether it is the last record, the actions.
abbrev pub Changes : Type 0 → Type 0
Changes P = Option P × Option Bool × Option P

abbrev pub no_changes : {P : Type 0} → Changes P
no_changes = (none, none, none)

module _ {P : Type 0} (plist : Plist P) where
  -- plist_array_get_item and plist_get_string_val, which take NULL too.
  unfoldable pub item_of : Option P → ℕ → Option P
  item_of none n = none
  item_of (some a) n = plist.array_item a n

  unfoldable pub text_of : Option P → Option Text
  text_of none = none
  text_of (some a) = plist.string_val a

  unfoldable pub response_type : Option P → Option Text
  response_type msg = text_of (item_of msg 0)

  -- A node that is a dictionary.
  unfoldable pub dict_of : Option P → Option P
  dict_of none = none
  dict_of (some a) = if is_dict (plist.node_type a) then some a else none

  unfoldable pub started_with : Option P → Option Text → MobilesyncError × Started
  started_with msg none = (MobilesyncError.plist_error, not_started)
  started_with msg (some t) = elim (sync_type_of t) [
    | none ↦ (MobilesyncError.plist_error, not_started)
    | some type ↦ elim (item_of msg 5) [
      | none ↦ (MobilesyncError.plist_error, (some type, none, none))
      | some node ↦ (MobilesyncError.success, (some type, plist.uint_val node, none))
    ]
  ]

  -- The device's answer to SDMessageSyncDataClassWithDevice.
  unfoldable pub start_result : Option P → MobilesyncError × Started
  start_result msg = elim (response_type msg) [
    | none ↦ (MobilesyncError.plist_error, not_started)
    | some t ↦
        if is_refusal t
        then (MobilesyncError.sync_refused, (none, none, text_of (item_of msg 2)))
        else if is_cancel t
        then (MobilesyncError.cancelled, (none, none, text_of (item_of msg 2)))
        else started_with msg (text_of (item_of msg 4))
  ]

  -- To SDMessageFinishSessionOnDevice: any answer with a type is taken for a success.
  unfoldable pub finish_result : Option P → MobilesyncError
  finish_result msg = elim (response_type msg) [
    | none ↦ MobilesyncError.plist_error
    | some t ↦ MobilesyncError.success
  ]

  -- An answer that is to have the type `expected`, with the code for another type.
  unfoldable pub expect : Text → MobilesyncError → Option P → MobilesyncError
  expect expected otherwise msg = elim (response_type msg) [
    | none ↦ MobilesyncError.plist_error
    | some t ↦
        if is_cancel t
        then MobilesyncError.cancelled
        else if bytes_eq t expected
        then MobilesyncError.success
        else otherwise
  ]

  -- A record is the last unless the fourth item is true.
  unfoldable pub last_record : Option P → Bool
  last_record none = true
  last_record (some node) = elim (plist.bool_val node) [ none ↦ true | some more ↦ not more ]

  -- A message of any type but a cancellation is taken for changes.
  unfoldable pub changes_result : Option P → MobilesyncError × Changes P
  changes_result msg = elim (response_type msg) [
    | none ↦ (MobilesyncError.plist_error, no_changes)
    | some t ↦ if is_cancel t then (MobilesyncError.cancelled, no_changes) else (
      MobilesyncError.success,
      (item_of msg 2, some (last_record (item_of msg 3)), dict_of (item_of msg 4)),
    )
  ]

  unfoldable pub create_process_changes_message : Text → P → Bool → Option P → P
  create_process_changes_message data_class entities more_changes actions = plist.new_array (
      plist.new_string (codes "SDMessageProcessChanges")
      ∷ plist.new_string data_class
      ∷ entities
      ∷ plist.new_bool more_changes
      ∷ elim actions [ none ↦ plist.new_string empty_parameter | some a ↦ a ]
      ∷ [])
