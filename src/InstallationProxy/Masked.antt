-- ===== src/InstallationProxy/Masked.antt =====
-- src/installation_proxy.c: an error that the receive loop does not report.
use libimobiledevice.Common.{ℕ, suc, ◌≡◌, ◌≢◌, Bool, false, some, arith}
use libimobiledevice.Common.Bytes.{codes}
use libimobiledevice.Common.Run.{ret}
use libimobiledevice.PlistService.{PlistServiceError}
use libimobiledevice.DeviceLink.{Text}
use libimobiledevice.Dictionary.{Dicts}
use libimobiledevice.InstallationProxy.Error.{InstproxyError, instproxy_error}
use libimobiledevice.InstallationProxy.{
  Proxied, CommandType, StatusCb, invoke, instproxy_status_get_error, instproxy_status_get_name,
  receive_status_loop, receive_status_loop_with_callback, perform_over, perform_in,
  instproxy_perform_command,
}
use libimobiledevice.InstallationProxy.Verdict.{verdict-masked}

module _ {P C U : Type 0} (dicts : Dicts P) (channel : Proxied P C) where
  -- When the first message for a command that is waited for reports an error, of whatever name, and
  -- has a Status that is not Complete, instproxy_perform_command stops and returns OP_IN_PROGRESS,
  -- after it has called the callback with the message.
  pub perform_command_masked :
      (f : ℕ) (thread_new : Bool) (c c1 c2 : C) (e : PlistServiceError) (status_cb : StatusCb P U)
      (command m : P) (name : Text) (u : U)
      → channel.send_xml_plist c command ≡ ret (e, c1)
      → channel.receive_plist_with_timeout c1 1000 ≡ ret (PlistServiceError.success, some m, c2)
      → (instproxy_status_get_error dicts m).0 ≢ InstproxyError.success
      → instproxy_status_get_name dicts m ≡ some name
      → name ≢ codes "Complete"
      → instproxy_perform_command dicts channel thread_new
          (suc f)
          (some (record { parent = some c; busy = false }))
          CommandType.sync
          status_cb
          command
          u
        ≡ ret (
          InstproxyError.op_in_progress,
          some (record { parent = some c2; busy = false }),
          invoke status_cb command m u,
        )
  unfolding instproxy_perform_command perform_in perform_over receive_status_loop_with_callback
      receive_status_loop instproxy_error
  perform_command_masked f thread_new c c1 c2 e status_cb command m name u sent got failed status
        other =
      ground (arith, sent, got, verdict-masked dicts m name failed status other)
