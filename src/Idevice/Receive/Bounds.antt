-- ===== src/Idevice/Receive/Bounds.antt =====
-- idevice_connection_receive_timeout: the bytes handed over are the next ones of the stream.
use libimobiledevice.Common.{
  ℕ, zero, suc, ◌-◌, ◌≤◌, ◌≡◌, refl, sym, ap, ◌∙◌, false, List, [], ◌++◌, Option, none, some,
  append_assoc, arith,
}
use libimobiledevice.Common.Bytes.{length, length-append}
use libimobiledevice.Common.Run.{>>=-eq-ret, ret}
use libimobiledevice.Idevice.{IdeviceError, Net, Connection, Link, is_done, is_moved}
use libimobiledevice.Idevice.Receive.{
  internal_connection_receive_timeout, ssl_read_loop, receive_ssl, receive_over,
  connection_receive_timeout, idevice_connection_receive_timeout,
}

-- `bs` are the first bytes of what waits in `w`, at most `len`, and `w'` is left with the others.
abbrev pub Takes : {W : Type 0} → (W → List ℕ) → ℕ → List ℕ → W → W → Type 0
Takes pending len bs w w' = (length bs ≤ len) × (pending w ≡ bs ++ pending w')

-- What the receive calls of the libraries promise, `pending` being all the bytes that the device
-- has sent and nobody has read: what they hand over is the front of it, no more than was asked for.
pub record ReceiveLaws {W : Type 0} (net : Net W) (pending : W → List ℕ) : Type 0 where
  pub usb :
      (h len millis : ℕ) (w : W)
      → Takes pending len
          (net.usbmuxd_recv_timeout h len millis w).1
          w
          (net.usbmuxd_recv_timeout h len millis w).2
  pub socket :
      (h len millis : ℕ) (w : W)
      → Takes pending len
          (net.socket_receive_timeout h len millis w).1
          w
          (net.socket_receive_timeout h len millis w).2
  pub socket_error :
      (h len millis : ℕ) (w : W)
      → is_done (net.socket_receive_timeout h len millis w).0 ≡ false
      → (net.socket_receive_timeout h len millis w).1 ≡ []
  pub ssl :
      (s len millis : ℕ) (st : IdeviceError) (w : W)
      → Takes pending len (net.ssl_read s len millis st w).1 w (net.ssl_read s len millis st w).3
  pub ssl_error :
      (s len millis : ℕ) (st : IdeviceError) (w : W)
      → is_moved (net.ssl_read s len millis st w).0 ≡ false
      → (net.ssl_read s len millis st w).1 ≡ []
  pub shutdown : (s : ℕ) (w : W) → pending (net.ssl_set_shutdown s w) ≡ pending w

module _ {W : Type 0} (net : Net W) (pending : W → List ℕ) (laws : ReceiveLaws net pending) where
  internal_connection_receive_timeout-Takes :
      (c : Connection) (len millis : ℕ) (w : W)
      → let r = internal_connection_receive_timeout net c len millis w in
        Takes pending len r.1 w r.2
  unfolding internal_connection_receive_timeout
  internal_connection_receive_timeout-Takes c len millis w = ground (
    arith,
    laws.usb c.handle len millis w,
    laws.socket c.handle len millis w,
    laws.socket_error c.handle len millis w,
  )

  Takes_more :
      (len : ℕ) (acc bs : List ℕ) (w w1 w2 : W)
      → length acc ≤ len
      → Takes pending len acc w w1
      → Takes pending (len - length acc) bs w1 w2
      → Takes pending len (acc ++ bs) w w2
  Takes_more len acc bs w w1 w2 h a b = (
    omega (arith, length-append acc bs),
    a.1 ∙ ap (◌++◌ acc) b.1 ∙ sym (append_assoc acc bs (pending w2)),
  )

  ssl_read_loop-Takes :
      (f s len millis : ℕ) (acc : List ℕ) (st : IdeviceError) (w0 w : W) (bs : List ℕ)
      (st' : IdeviceError) (w' : W)
      → Takes pending len acc w0 w
      → ssl_read_loop net f s len millis acc st w ≡ ret (bs, st', w')
      → Takes pending len bs w0 w'
  unfolding ssl_read_loop
  ssl_read_loop-Takes zero s len millis acc st w0 w bs st' w' t e = ground arith
  ssl_read_loop-Takes (suc f) s len millis acc st w0 w bs st' w' t e =
      let r = net.ssl_read s (len - length acc) millis st w in
      ground (
        arith,
        laws.ssl s (len - length acc) millis st w,
        laws.ssl_error s (len - length acc) millis st w,
        laws.shutdown s r.3,
        Takes_more len acc r.1 w0 w r.3,
        ssl_read_loop-Takes f s len millis (acc ++ r.1) r.2 w0 r.3 bs st' w',
        ssl_read_loop-Takes f s len millis acc r.2 w0 r.3 bs st' w',
      )

  receive_ssl-Takes :
      (rounds s : ℕ) (c : Connection) (len millis : ℕ) (w : W) (e : IdeviceError) (bs : List ℕ)
      (l : Link W)
      → receive_ssl net rounds s c len millis w ≡ ret (e, bs, l)
      → Takes pending len bs w l.net
  unfolding receive_ssl
  receive_ssl-Takes rounds s c len millis w e bs l h =
      let (r, ran, rest) =
        >>=-eq-ret (ssl_read_loop net rounds s len millis [] IdeviceError.success w) _ h in
      let t : Takes pending len r.0 w r.2 =
        ssl_read_loop-Takes rounds s len millis [] IdeviceError.success w w r.0 r.1 r.2
          (omega arith, refl) ran in
      ground (arith, rest, t)

  receive_over-Takes :
      (rounds : ℕ) (t : Option (Option ℕ)) (c : Connection) (len millis : ℕ) (w : W)
      (e : IdeviceError) (bs : List ℕ) (l : Link W)
      → receive_over net rounds t c len millis w ≡ ret (e, bs, l)
      → Takes pending len bs w l.net
  unfolding receive_over
  receive_over-Takes rounds none c len millis w e bs l h =
      ground (arith, internal_connection_receive_timeout-Takes c len millis w)
  receive_over-Takes rounds (some none) c len millis w e bs l h = ground arith
  receive_over-Takes rounds (some (some s)) c len millis w e bs l h =
      receive_ssl-Takes rounds s c len millis w e bs l h

  connection_receive_timeout-Takes :
      (rounds : ℕ) (c : Option Connection) (len millis : ℕ) (w : W) (e : IdeviceError) (bs : List ℕ)
      (l : Link W)
      → connection_receive_timeout net rounds c len millis w ≡ ret (e, bs, l)
      → Takes pending len bs w l.net
  unfolding connection_receive_timeout
  connection_receive_timeout-Takes rounds none len millis w e bs l h = ground arith
  connection_receive_timeout-Takes rounds (some c) len millis w e bs l h =
      ground (arith, receive_over-Takes rounds c.ssl_data c len millis w e bs l)

  -- Whatever code idevice_connection_receive_timeout returns, the bytes that it hands over are at
  -- most as many as were asked for, and they are the front of what the device had sent: the rest
  -- of it is what is still to be read. It is assumed of the calls below that the same holds for
  -- each of them, and that a socket or SSL call that fails hands over nothing.
  pub idevice_connection_receive_timeout-Takes :
      (rounds len millis : ℕ) (l : Link W) (e : IdeviceError) (bs : List ℕ) (l' : Link W)
      → idevice_connection_receive_timeout net rounds len millis l ≡ ret (e, bs, l')
      → Takes pending len bs l.net l'.net
  unfolding idevice_connection_receive_timeout
  idevice_connection_receive_timeout-Takes rounds len millis l e bs l' h =
      connection_receive_timeout-Takes rounds l.connection len millis l.net e bs l' h
