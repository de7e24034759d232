-- ===== src/Idevice/Send.antt =====
-- src/idevice.c: sending bytes over a connection, through SSL or not.
pub mod Complete
pub mod Ends
pub mod Full
use libimobiledevice.Common.{
  ℕ, zero, suc, true, false, List, Option, none, some, ltb, ◌==◌, if◌then◌else◌,
}
use libimobiledevice.Common.Bytes.{length, drop}
use libimobiledevice.Common.Run.{Run, ret, hangs, ◌>>=◌}
use libimobiledevice.Idevice.{
  IdeviceError, Code, SslCode, Net, ConnectionType, Connection, Link, is_success, add32, link_of,
  unlinked, ssl_status,
}

module _ {W : Type 0} (net : Net W) where
  -- The loop of internal_connection_send that calls usbmuxd_send again while it says EAGAIN.
  unfoldable pub usbmuxd_retry : ℕ → ℕ → List ℕ → W → Run (IdeviceError × ℕ × W)
  usbmuxd_retry zero h d w = hangs
  usbmuxd_retry (suc f) h d w =
      let r = net.usbmuxd_send h d w in
      elim r.0 [
        | Code.eagain ↦ usbmuxd_retry f h d r.2
        | Code.done n ↦ ret (IdeviceError.success, r.1, r.2)
        | _ ↦ ret (IdeviceError.unknown_error, r.1, r.2)
      ]

  unfoldable pub socket_send_all : ℕ → List ℕ → W → Run (IdeviceError × ℕ × W)
  socket_send_all h d w =
      let r = net.socket_send h d w in
      elim r.0 [
        | Code.done n ↦ ret (IdeviceError.success, n, r.1)
        | _ ↦ ret (IdeviceError.unknown_error, 0, r.1)
      ]

  unfoldable pub internal_connection_send : ℕ → Connection → List ℕ → W → Run (IdeviceError × ℕ × W)
  internal_connection_send f c d w = elim c.type [
    | ConnectionType.usbmuxd ↦ usbmuxd_retry f c.handle d w
    | ConnectionType.network ↦ socket_send_all c.handle d w
    | ConnectionType.other t ↦ ret (IdeviceError.unknown_error, 0, w)
  ]

  -- `while (sent < len)` over internal_connection_send; `rounds` bounds each of its own loops.
  unfoldable pub send_loop : ℕ → ℕ → Connection → List ℕ → ℕ → W → Run (ℕ × W)
  send_loop rounds zero c d sent w = if ltb sent (length d) then hangs else ret (sent, w)
  send_loop rounds (suc f) c d sent w = elim (ltb sent (length d)) [
    | false ↦ ret (sent, w)
    | true ↦ internal_connection_send rounds c (drop sent d) w >>= λ r. elim (is_success r.0) [
      | true ↦ send_loop rounds f c d (add32 sent r.1) r.2
      | false ↦ ret (sent, r.2)
    ]
  ]

  -- The loop over SSL_write, with the status that the callbacks leave.
  unfoldable pub ssl_write_loop :
      ℕ → ℕ → Connection → List ℕ → ℕ → IdeviceError → W → Run (ℕ × IdeviceError × W)
  ssl_write_loop zero s c d sent st w = if ltb sent (length d) then hangs else ret (sent, st, w)
  ssl_write_loop (suc f) s c d sent st w = elim (ltb sent (length d)) [
    | false ↦ ret (sent, st, w)
    | true ↦
        let r = net.ssl_write s (drop sent d) c.ssl_recv_timeout st w in
        elim r.0 [
          | SslCode.moved n ↦ ssl_write_loop f s c d (add32 sent n) r.1 r.2
          | SslCode.want ↦ ssl_write_loop f s c d sent r.1 r.2
          | _ ↦ ret (sent, r.1, r.2)
        ]
  ]

  unfoldable pub send_ssl : ℕ → ℕ → Connection → List ℕ → W → Run (IdeviceError × ℕ × Link W)
  send_ssl rounds s c d w = ssl_write_loop rounds s c d 0 IdeviceError.success w >>= λ r.
      let l = link_of (record c { status = r.1 }) r.2 in
      if ltb r.0 (length d) then ret (ssl_status r.1, 0, l) else ret (IdeviceError.success, r.0, l)

  unfoldable pub send_plain : ℕ → Connection → List ℕ → W → Run (IdeviceError × ℕ × Link W)
  send_plain rounds c d w = send_loop rounds rounds c d 0 w >>= λ r.
      if ltb r.0 (length d)
      then (if r.0 == 0
          then ret (IdeviceError.unknown_error, r.0, link_of c r.1)
          else ret (IdeviceError.not_enough_data, r.0, link_of c r.1))
      else ret (IdeviceError.success, r.0, link_of c r.1)

  -- By the connection's SSL data.
  unfoldable pub send_over :
      ℕ → Option (Option ℕ) → Connection → List ℕ → W → Run (IdeviceError × ℕ × Link W)
  send_over rounds none c d w = send_plain rounds c d w
  send_over rounds (some none) c d w = ret (IdeviceError.invalid_arg, 0, link_of c w)
  send_over rounds (some (some s)) c d w = send_ssl rounds s c d w

  -- By what the pointers `connection` and `data` lead to.
  unfoldable pub connection_send :
      ℕ → Option Connection → Option (List ℕ) → W → Run (IdeviceError × ℕ × Link W)
  connection_send rounds none d w = ret (IdeviceError.invalid_arg, 0, unlinked w)
  connection_send rounds (some c) none w = ret (IdeviceError.invalid_arg, 0, link_of c w)
  connection_send rounds (some c) (some d) w = send_over rounds c.ssl_data c d w

  -- The count is 0 on the codes for which the source leaves `*sent_bytes` alone.
  unfoldable pub idevice_connection_send :
      ℕ → Option (List ℕ) → Link W → Run (IdeviceError × ℕ × Link W)
  unfolding connection_send
  idevice_connection_send rounds d l = connection_send rounds l.connection d l.net
