-- ===== src/Mobilesync.antt =====
-- src/mobilesync.c: the client of the synchronisation service, over device link messages.
pub mod Answers
pub mod Calls
pub mod Phases
pub mod Changes
use libimobiledevice.Common.{Option}
use libimobiledevice.DeviceLink.{Text, DeviceLinkError}

-- The codes of mobilesync_error_t.
pub data MobilesyncError : Type 0 where
  success invalid_arg plist_error mux_error ssl_error receive_timeout bad_version sync_refused
        cancelled wrong_direction not_ready unknown_error :
      MobilesyncError

unfoldable pub mobilesync_error : DeviceLinkError → MobilesyncError
mobilesync_error DeviceLinkError.success = MobilesyncError.success
mobilesync_error DeviceLinkError.invalid_arg = MobilesyncError.invalid_arg
mobilesync_error DeviceLinkError.plist_error = MobilesyncError.plist_error
mobilesync_error DeviceLinkError.mux_error = MobilesyncError.mux_error
mobilesync_error DeviceLinkError.ssl_error = MobilesyncError.ssl_error
mobilesync_error DeviceLinkError.receive_timeout = MobilesyncError.receive_timeout
mobilesync_error DeviceLinkError.bad_version = MobilesyncError.bad_version
mobilesync_error _ = MobilesyncError.unknown_error

-- mobilesync_sync_direction_t
pub data Direction : Type 0 where
  device_to_computer computer_to_device : Direction

-- mobilesync_sync_type_t
pub data SyncType : Type 0 where
  fast slow reset : SyncType

-- struct mobilesync_client_private. `parent` is what the pointer to the device link client leads
-- to, as there; there is a session when the data class is there.
pub record Client (C : Type 0) : Type 0 where
  pub parent : Option C
  pub direction : Direction
  pub data_class : Option Text

-- mobilesync_anchors_t
pub record Anchors : Type 0 where
  pub device_anchor : Option Text
  pub computer_anchor : Option Text
