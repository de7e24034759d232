-- ===== src/DeviceLink.antt =====
-- src/device_link_service.c: the DL* messages, arrays whose first item names the message. The
-- property lists are libplist's: `Plist` holds the calls that this file makes.
pub mod Message
pub mod Exchange
pub mod Version
pub mod Process
use libimobiledevice.Common.{ℕ, Bool, true, false, not, ◌&&◌, List, Option, none, some, ltb}
use libimobiledevice.Common.Bytes.{length, take, bytes_eq, codes}
use libimobiledevice.PlistService.{PlistServiceError}

abbrev pub Text : Type 0
Text = List ℕ

-- The codes of device_link_service_error_t.
pub data DeviceLinkError : Type 0 where
  success invalid_arg plist_error mux_error ssl_error receive_timeout bad_version unknown_error :
      DeviceLinkError

abbrev pub is_success : DeviceLinkError → Bool
is_success DeviceLinkError.success = true
is_success _ = false

unfoldable pub device_link_error : PlistServiceError → DeviceLinkError
device_link_error PlistServiceError.success = DeviceLinkError.success
device_link_error PlistServiceError.invalid_arg = DeviceLinkError.invalid_arg
device_link_error PlistServiceError.plist_error = DeviceLinkError.plist_error
device_link_error PlistServiceError.mux_error = DeviceLinkError.mux_error
device_link_error PlistServiceError.ssl_error = DeviceLinkError.ssl_error
device_link_error PlistServiceError.receive_timeout = DeviceLinkError.receive_timeout
device_link_error _ = DeviceLinkError.unknown_error

-- plist_get_node_type for the types that are told apart here.
pub data NodeType : Type 0 where
  array string dict boolean uint bytes other : NodeType

-- libplist. `string_val`, `uint_val` and `bool_val` are `none` where the C call leaves its result alone.
pub record Plist (P : Type 0) : Type 0 where
  pub node_type : P → NodeType
  pub array_size : P → ℕ
  pub array_item : P → ℕ → Option P
  pub string_val : P → Option Text
  pub uint_val : P → Option ℕ
  pub bool_val : P → Option Bool
  pub new_array : List P → P
  pub new_string : Text → P
  pub new_uint : ℕ → P
  pub new_bool : Bool → P

abbrev pub is_array : NodeType → Bool
is_array NodeType.array = true
is_array _ = false

abbrev pub is_string : NodeType → Bool
is_string NodeType.string = true
is_string _ = false

abbrev pub is_dict : NodeType → Bool
is_dict NodeType.dict = true
is_dict _ = false

unfoldable pub version_exchange_name : Text
version_exchange_name = codes "DLMessageVersionExchange"

unfoldable pub versions_ok_name : Text
versions_ok_name = codes "DLVersionsOk"

unfoldable pub device_ready_name : Text
device_ready_name = codes "DLMessageDeviceReady"

unfoldable pub process_message_name : Text
process_message_name = codes "DLMessageProcessMessage"

unfoldable pub disconnect_name : Text
disconnect_name = codes "DLMessageDisconnect"

unfoldable pub empty_parameter : Text
empty_parameter = codes "___EmptyParameterString___"

unfoldable pub ping_name : Text
ping_name = codes "DLMessagePing"

-- A string of nine bytes at least that starts with "DL".
unfoldable pub is_dl_name : Text → Bool
is_dl_name s = not (ltb (length s) 9) && bytes_eq (take 2 s) (codes "DL")

-- `msg && strcmp(msg, name) == 0`
unfoldable pub is_message : Text → Option Text → Bool
is_message name none = false
is_message name (some msg) = bytes_eq msg name
