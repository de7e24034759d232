-- ===== src/Idevice/Receive.antt =====
-- src/idevice.c: receiving bytes over a connection, through SSL or not.
pub mod Bounds
use libimobiledevice.Common.{
  ℕ, zero, suc, ◌+◌, ◌-◌, true, false, List, [], ◌++◌, Option, none, some, ltb, ◌==◌, if◌then◌else◌,
}
use libimobiledevice.Common.Bytes.{length}
use libimobiledevice.Common.Run.{Run, ret, hangs, ◌>>=◌}
use libimobiledevice.Idevice.{
  IdeviceError, Code, SslCode, Net, ConnectionType, Connection, Link, is_success, no_timeout,
  link_of, unlinked, ssl_status,
}

module _ {W : Type 0} (net : Net W) where
  -- socket_recv_to_idevice_error; its two lengths only go to the log.
  abbrev pub socket_recv_to_idevice_error : Code → IdeviceError
  socket_recv_to_idevice_error (Code.done n) = IdeviceError.success
  socket_recv_to_idevice_error Code.eagain = IdeviceError.not_enough_data
  socket_recv_to_idevice_error Code.etimedout = IdeviceError.timeout
  socket_recv_to_idevice_error (Code.eother e) = IdeviceError.unknown_error

  -- The bytes are what arrives in the buffer, and `*recv_bytes` is their number.
  unfoldable pub internal_connection_receive_timeout :
      Connection → ℕ → ℕ → W → IdeviceError × List ℕ × W
  internal_connection_receive_timeout c len millis w = elim c.type [
    | ConnectionType.usbmuxd ↦
        let r = net.usbmuxd_recv_timeout c.handle len millis w in
        (socket_recv_to_idevice_error r.0, r.1, r.2)
    | ConnectionType.network ↦
        let r = net.socket_receive_timeout c.handle len millis w in
        let e = socket_recv_to_idevice_error r.0 in (e, (if is_success e then r.1 else []), r.2)
    | ConnectionType.other t ↦ (IdeviceError.unknown_error, [], w)
  ]

  -- The loop over SSL_read: the bytes so far, the status that the callbacks leave.
  unfoldable pub ssl_read_loop :
      ℕ → ℕ → ℕ → ℕ → List ℕ → IdeviceError → W → Run (List ℕ × IdeviceError × W)
  ssl_read_loop zero s len millis acc st w =
      if ltb (length acc) len then hangs else ret (acc, st, w)
  ssl_read_loop (suc f) s len millis acc st w = elim (ltb (length acc) len) [
    | false ↦ ret (acc, st, w)
    | true ↦
        let r = net.ssl_read s (len - length acc) millis st w in
        elim r.0 [
          | SslCode.moved n ↦ ssl_read_loop f s len millis (acc ++ r.1) r.2 r.3
          | SslCode.want ↦ ssl_read_loop f s len millis acc r.2 r.3
          | SslCode.zero_return ↦ elim r.2 [
            | IdeviceError.timeout ↦ ret (acc, r.2, net.ssl_set_shutdown s r.3)
            | _ ↦ ret (acc, r.2, r.3)
          ]
          | SslCode.failed ↦ ret (acc, r.2, r.3)
        ]
  ]

  unfoldable pub receive_ssl : ℕ → ℕ → Connection → ℕ → ℕ → W → Run (IdeviceError × List ℕ × Link W)
  receive_ssl rounds s c len millis w =
      ssl_read_loop rounds s len millis [] IdeviceError.success w >>= λ r.
      let l = link_of (record c { ssl_recv_timeout = no_timeout; status = r.1 }) r.2 in
      if ltb (length r.0) len
      then ret (ssl_status r.1, r.0, l)
      else ret (IdeviceError.success, r.0, l)

  -- By the connection's SSL data, for a length that is not 0.
  unfoldable pub receive_over :
      ℕ → Option (Option ℕ) → Connection → ℕ → ℕ → W → Run (IdeviceError × List ℕ × Link W)
  receive_over rounds none c len millis w =
      let r = internal_connection_receive_timeout c len millis w in ret (r.0, r.1, link_of c r.2)
  receive_over rounds (some none) c len millis w = ret (IdeviceError.invalid_arg, [], link_of c w)
  receive_over rounds (some (some s)) c len millis w = receive_ssl rounds s c len millis w

  unfoldable pub connection_receive_timeout :
      ℕ → Option Connection → ℕ → ℕ → W → Run (IdeviceError × List ℕ × Link W)
  connection_receive_timeout rounds none len millis w =
      ret (IdeviceError.invalid_arg, [], unlinked w)
  connection_receive_timeout rounds (some c) len millis w =
      if len == 0
      then ret (IdeviceError.invalid_arg, [], link_of c w)
      else receive_over rounds c.ssl_data c len millis w

  unfoldable pub idevice_connection_receive_timeout :
      ℕ → ℕ → ℕ → Link W → Run (IdeviceError × List ℕ × Link W)
  unfolding connection_receive_timeout
  idevice_connection_receive_timeout rounds len millis l =
      connection_receive_timeout rounds l.connection len millis l.net
