-- ===== src/Idevice/Send/Full.antt =====
-- idevice_connection_send: what a full count says of the code.
use libimobiledevice.Common.{ℕ, ◌<◌, ◌≡◌, List, Option, none, some, arith}
use libimobiledevice.Common.Bytes.{length}
use libimobiledevice.Common.Run.{>>=-eq-ret, ret}
use libimobiledevice.Idevice.{IdeviceError, Net, Connection, Link, link_of}
use libimobiledevice.Idevice.Send.{
  send_over, send_loop, ssl_write_loop, send_ssl, send_plain, connection_send,
  idevice_connection_send,
}

module _ {W : Type 0} (net : Net W) (rounds : ℕ) where
  send_over-full :
      (t : Option (Option ℕ)) (c : Connection) (d : List ℕ) (w : W) (r : IdeviceError × ℕ × Link W)
      → 0 < length d
      → send_over net rounds t c d w ≡ ret r
      → r.1 ≡ length d
      → r.0 ≡ IdeviceError.success
  unfolding send_over send_plain send_ssl
  send_over-full none c d w r k h full =
      let (q, ran, rest) = >>=-eq-ret (send_loop net rounds rounds c d 0 w) _ h in
      ground (arith, rest)
  send_over-full (some none) c d w r k h full = ground arith
  send_over-full (some (some s)) c d w r k h full =
      let (q, ran, rest) =
        >>=-eq-ret (ssl_write_loop net rounds s c d 0 IdeviceError.success w) _ h in
      ground (arith, rest)

  -- A count as large as the data, which is not empty, comes with a success only.
  pub connection_send-full :
      (c : Connection) (d : List ℕ) (w : W) (r : IdeviceError × ℕ × Link W)
      → 0 < length d
      → idevice_connection_send net rounds (some d) (link_of c w) ≡ ret r
      → r.1 ≡ length d
      → r.0 ≡ IdeviceError.success
  unfolding idevice_connection_send connection_send
  connection_send-full c d w r k h full = send_over-full c.ssl_data c d w r k h full
