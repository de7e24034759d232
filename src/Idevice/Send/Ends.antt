-- ===== src/Idevice/Send/Ends.antt =====
-- The send loops come to an end, if the calls below them make progress.
use libimobiledevice.Common.{
  ℕ, zero, suc, ◌+◌, ◌-◌, ◌*◌, ◌^◌, ◌≤◌, ◌<◌, ◌≡◌, inl, inr, true, List, Option, none, some, arith,
  ltb, Bool-cases,
}
use libimobiledevice.Common.Bytes.{length, drop, length-drop}
use libimobiledevice.Common.Run.{ret, Ends, Ends->>=}
use libimobiledevice.Idevice.{
  IdeviceError, Net, Connection, Link, is_done, is_eagain, count, is_moved, is_want, moved_count,
  add32,
}
use libimobiledevice.Idevice.Send.{
  usbmuxd_retry, socket_send_all, internal_connection_send, send_loop, ssl_write_loop, send_ssl,
  send_plain, send_over, connection_send, idevice_connection_send,
}

-- The calls make progress: a success moves a byte at least, and not more than there are, and each
-- "call again" leaves one try less of at most `bound`.
pub record Progress {W : Type 0} (net : Net W) (bound : ℕ) (tries : W → ℕ) : Type 0 where
  pub bounded : (w : W) → tries w ≤ bound
  pub usb_done :
      (h : ℕ) (d : List ℕ) (w : W)
      → is_done (net.usbmuxd_send h d w).0 ≡ true
      → 0 < length d
      → (0 < (net.usbmuxd_send h d w).1) × ((net.usbmuxd_send h d w).1 ≤ length d)
  pub usb_eagain :
      (h : ℕ) (d : List ℕ) (w : W)
      → is_eagain (net.usbmuxd_send h d w).0 ≡ true
      → tries (net.usbmuxd_send h d w).2 < tries w
  pub socket_done :
      (h : ℕ) (d : List ℕ) (w : W)
      → is_done (net.socket_send h d w).0 ≡ true
      → 0 < length d
      → (0 < count (net.socket_send h d w).0) × (count (net.socket_send h d w).0 ≤ length d)
  pub ssl_moved :
      (s : ℕ) (d : List ℕ) (t : ℕ) (st : IdeviceError) (w : W)
      → is_moved (net.ssl_write s d t st w).0 ≡ true
      → (0 < moved_count (net.ssl_write s d t st w).0)
        × (moved_count (net.ssl_write s d t st w).0 ≤ length d)
  pub ssl_want :
      (s : ℕ) (d : List ℕ) (t : ℕ) (st : IdeviceError) (w : W)
      → is_want (net.ssl_write s d t st w).0 ≡ true
      → tries (net.ssl_write s d t st w).2 < tries w

fewer_rounds : (m m' b t t' f : ℕ) → m' < m → t' < b → m * b + t < suc f → m' * b + t' < f
fewer_rounds m m' b t t' f h k e = grind arith

enough_ssl : (n b r t : ℕ) → suc n * suc b ≤ r → t ≤ b → (n - 0) * suc b + t < r
enough_ssl n b r t h k = grind arith

enough_tries : (n b r : ℕ) → suc n * suc b ≤ r → b < r
enough_tries n b r h = grind arith

enough_bytes : (n b r : ℕ) → suc n * suc b ≤ r → n ≤ 0 + r
enough_bytes n b r h = grind arith

module _ {W : Type 0} (net : Net W) (bound : ℕ) (tries : W → ℕ)
    (laws : Progress net bound tries) where
  usbmuxd_retry-Ends :
      (f h : ℕ) (d : List ℕ) (w : W) → tries w < f → Ends (usbmuxd_retry net f h d w)
  unfolding usbmuxd_retry
  usbmuxd_retry-Ends zero h d w k = elim k [ ]
  usbmuxd_retry-Ends (suc f) h d w k =
      let w' = (net.usbmuxd_send h d w).2 in
      ground (arith, laws.usb_eagain h d w, usbmuxd_retry-Ends f h d w')

  usbmuxd_retry_moves :
      (f h : ℕ) (d : List ℕ) (w : W) (n : ℕ) (w' : W)
      → usbmuxd_retry net f h d w ≡ ret (IdeviceError.success, n, w')
      → 0 < length d
      → (0 < n) × (n ≤ length d)
  unfolding usbmuxd_retry
  usbmuxd_retry_moves zero h d w n w' e k = ground arith
  usbmuxd_retry_moves (suc f) h d w n w' e k =
      let w1 = (net.usbmuxd_send h d w).2 in
      ground (arith, laws.usb_done h d w, usbmuxd_retry_moves f h d w1 n w')

  internal_connection_send-Ends :
      (f : ℕ) (c : Connection) (d : List ℕ) (w : W)
      → bound < f
      → Ends (internal_connection_send net f c d w)
  unfolding internal_connection_send socket_send_all
  internal_connection_send-Ends f c d w k =
      ground (arith, laws.bounded w, usbmuxd_retry-Ends f c.handle d w)

  internal_connection_send_moves :
      (f : ℕ) (c : Connection) (d : List ℕ) (w : W) (n : ℕ) (w' : W)
      → internal_connection_send net f c d w ≡ ret (IdeviceError.success, n, w')
      → 0 < length d
      → (0 < n) × (n ≤ length d)
  unfolding internal_connection_send socket_send_all
  internal_connection_send_moves f c d w n w' e k =
      ground (arith, usbmuxd_retry_moves f c.handle d w n w', laws.socket_done c.handle d w)

  send_loop-Ends :
      (rounds f : ℕ) (c : Connection) (d : List ℕ) (sent : ℕ) (w : W)
      → bound < rounds
      → length d < 2 ^ 32
      → length d ≤ sent + f
      → Ends (send_loop net rounds f c d sent w)
  unfolding send_loop
  send_loop-Ends rounds zero c d sent w b small k = ground arith
  send_loop-Ends rounds (suc f) c d sent w b small k = elim (Bool-cases (ltb sent (length d))) [
    | inr all ↦ ground arith
    | inl more ↦
        rw (more, send_loop)
          (Ends->>= _ _ (internal_connection_send-Ends rounds c (drop sent d) w b) λ r e. ground (
            arith,
            length-drop sent d,
            internal_connection_send_moves rounds c (drop sent d) w r.1 r.2,
            send_loop-Ends rounds f c d (add32 sent r.1) r.2 b small,
          ))
  ]

  ssl_write_loop-Ends :
      (f s : ℕ) (c : Connection) (d : List ℕ) (sent : ℕ) (st : IdeviceError) (w : W)
      → length d < 2 ^ 32
      → (length d - sent) * suc bound + tries w < f
      → Ends (ssl_write_loop net f s c d sent st w)
  unfolding ssl_write_loop
  ssl_write_loop-Ends zero s c d sent st w small k = elim k [ ]
  ssl_write_loop-Ends (suc f) s c d sent st w small k =
      let r = net.ssl_write s (drop sent d) c.ssl_recv_timeout st w in
      let n = moved_count r.0 in
      let sent' = add32 sent n in
      ground (
        arith,
        length-drop sent d,
        laws.ssl_moved s (drop sent d) c.ssl_recv_timeout st w,
        laws.ssl_want s (drop sent d) c.ssl_recv_timeout st w,
        laws.bounded r.2,
        fewer_rounds (length d - sent) (length d - sent') (suc bound) (tries w) (tries r.2) f,
        ssl_write_loop-Ends f s c d sent' r.1 r.2 small,
        ssl_write_loop-Ends f s c d sent r.1 r.2 small,
      )

  send_over-Ends :
      (rounds : ℕ) (t : Option (Option ℕ)) (c : Connection) (d : List ℕ) (w : W)
      → length d < 2 ^ 32
      → suc (length d) * suc bound ≤ rounds
      → Ends (send_over net rounds t c d w)
  unfolding send_over send_plain send_ssl
  send_over-Ends rounds none c d w small k =
      Ends->>= _ _
        (send_loop-Ends rounds rounds c d 0 w (enough_tries (length d) bound rounds k) small
          (enough_bytes (length d) bound rounds k))
        λ r e. ground arith
  send_over-Ends rounds (some none) c d w small k = tt
  send_over-Ends rounds (some (some s)) c d w small k =
      Ends->>= _ _
        (ssl_write_loop-Ends rounds s c d 0 IdeviceError.success w small
          (enough_ssl (length d) bound rounds (tries w) k (laws.bounded w)))
        λ r e. ground arith

  connection_send-Ends :
      (rounds : ℕ) (c : Option Connection) (d : List ℕ) (w : W)
      → length d < 2 ^ 32
      → suc (length d) * suc bound ≤ rounds
      → Ends (connection_send net rounds c (some d) w)
  unfolding connection_send
  connection_send-Ends rounds none d w small k = tt
  connection_send-Ends rounds (some c) d w small k = send_over-Ends rounds c.ssl_data c d w small k

  -- If a successful call below moves a byte at least, and no more than there are, and at most
  -- `bound` calls in a row ask to be made again, then `(length d + 1) * (bound + 1)` rounds are
  -- enough for idevice_connection_send to return on data of fewer than 2 ^ 32 bytes, whatever the
  -- connection.
  idevice_connection_send-Ends :
      (rounds : ℕ) (d : List ℕ) (l : Link W)
      → length d < 2 ^ 32
      → suc (length d) * suc bound ≤ rounds
      → Ends (idevice_connection_send net rounds (some d) l)
  unfolding idevice_connection_send
  idevice_connection_send-Ends rounds d l small k =
      connection_send-Ends rounds l.connection d l.net small k
