-- ===== src/DeviceLink/Message.antt =====
-- src/device_link_service.c: what a received message is, and what answers it.
use libimobiledevice.Common.{
  ℕ, Bool, not, ◌&&◌, ◌||◌, [], ◌∷◌, Option, none, some, ltb, ◌==◌, if◌then◌else◌,
}
use libimobiledevice.DeviceLink.{
  Text, DeviceLinkError, Plist, is_array, is_string, version_exchange_name, versions_ok_name,
  device_ready_name, process_message_name, is_dl_name, is_message,
}

module _ {P : Type 0} (plist : Plist P) where
  -- The name in a node, if it is one of a DL* message.
  unfoldable pub name_of : Option P → Option Text
  name_of none = none
  name_of (some cmd) =
      if is_string (plist.node_type cmd)
      then elim (plist.string_val cmd) [
        | none ↦ none
        | some s ↦ if is_dl_name s then some s else none
      ]
      else none

  -- The message string, where the source returns 1, and `none` where it returns 0. The property
  -- list is `none` for NULL, whose node type is not that of an array.
  unfoldable pub device_link_service_get_message : Option P → Option Text
  device_link_service_get_message none = none
  device_link_service_get_message (some dl_msg) =
      if not (is_array (plist.node_type dl_msg)) || ltb (plist.array_size dl_msg) 1
      then none
      else name_of (plist.array_item dl_msg 0)

  -- A version number in an item: 0 if it is not there or no number.
  unfoldable pub version_in : Option P → ℕ
  version_in none = 0
  version_in (some p) = elim (plist.uint_val p) [ none ↦ 0 | some v ↦ v ]

  -- The reply to an acceptable version.
  unfoldable pub versions_ok : ℕ → P
  versions_ok major = plist.new_array (
      plist.new_string version_exchange_name
      ∷ plist.new_string versions_ok_name
      ∷ plist.new_uint major
      ∷ [])

  -- The device's version is later than the one that the client knows.
  unfoldable pub is_later : ℕ → ℕ → ℕ → ℕ → Bool
  is_later vmajor vminor major minor = ltb major vmajor || (vmajor == major && ltb minor vminor)

  -- The code for the device's first message, or success.
  unfoldable pub version_error : Option P → ℕ → ℕ → DeviceLinkError
  version_error none major minor = DeviceLinkError.plist_error
  version_error (some a) major minor =
      if not (is_message version_exchange_name (device_link_service_get_message (some a)))
      then DeviceLinkError.plist_error
      else if ltb (plist.array_size a) 3
      then DeviceLinkError.plist_error
      else if is_later (version_in (plist.array_item a 1)) (version_in (plist.array_item a 2)) major
          minor
      then DeviceLinkError.bad_version
      else DeviceLinkError.success

  unfoldable pub ready_error : Option P → DeviceLinkError
  ready_error b =
      if is_message device_ready_name (device_link_service_get_message b)
      then DeviceLinkError.success
      else DeviceLinkError.plist_error

  -- The code and contents for a DLMessageProcessMessage.
  unfoldable pub process_result : Option P → DeviceLinkError × Option P
  process_result none = (DeviceLinkError.plist_error, none)
  process_result (some a) =
      if not (is_message process_message_name (device_link_service_get_message (some a)))
        || not (plist.array_size a == 2)
      then (DeviceLinkError.plist_error, none)
      else elim (plist.array_item a 1) [
        | none ↦ (DeviceLinkError.plist_error, none)
        | some m ↦ (DeviceLinkError.success, some m)
      ]
