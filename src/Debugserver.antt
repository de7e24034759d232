-- ===== src/Debugserver.antt =====
-- src/debugserver.c: the client of the debug server, which speaks the remote protocol of gdb.
pub mod Hex
pub mod Response
use libimobiledevice.Common.{ℕ, Bool, Option}
use libimobiledevice.Service.{ServiceError}

-- The codes of debugserver_error_t.
pub data DebugserverError : Type 0 where
  success invalid_arg mux_error ssl_error response_error timeout unknown_error : DebugserverError

unfoldable pub debugserver_error : ServiceError → DebugserverError
debugserver_error ServiceError.success = DebugserverError.success
debugserver_error ServiceError.invalid_arg = DebugserverError.invalid_arg
debugserver_error ServiceError.mux_error = DebugserverError.mux_error
debugserver_error ServiceError.ssl_error = DebugserverError.ssl_error
debugserver_error ServiceError.timeout = DebugserverError.timeout
debugserver_error _ = DebugserverError.unknown_error

-- struct debugserver_client_private. `cancel_receive` is a callback of the program, which looks at
-- the outside world and may change it.
pub record Client (S : Type 0) : Type 0 where
  pub parent : S
  pub noack_mode : Bool
  pub cancel_receive : Option (S → Bool × S)
  pub receive_loop_timeout : ℕ
