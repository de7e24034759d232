-- ===== src/Idevice/Send/Complete.antt =====
-- idevice_connection_send: a success means that every byte went out, in order.
use libimobiledevice.Common.{
  ℕ, zero, suc, ◌+◌, ◌^◌, ◌≤◌, ◌<◌, ◌≡◌, sym, ap, ◌∙◌, inl, inr, true, false, List, ◌++◌, Option,
  none, some, append_assoc, append-nil, arith, ltb, Bool-cases,
}
use libimobiledevice.Common.Bytes.{length, take, drop, length-drop, take-add, take_self}
use libimobiledevice.Common.Run.{>>=-eq-ret, Run, ret}
use libimobiledevice.Idevice.{
  IdeviceError, Net, Connection, Link, is_success, is_done, is_eagain, count, is_moved, is_want,
  moved_count, add32,
}
use libimobiledevice.Idevice.Send.{
  send_over, usbmuxd_retry, socket_send_all, internal_connection_send, send_loop, ssl_write_loop,
  send_ssl, send_plain, connection_send, idevice_connection_send,
}

-- What the send calls of the libraries promise, `log` being all the bytes that they have taken:
-- the count that a success gives is what went out, and a call to be made again has sent nothing.
pub record SendLaws {W : Type 0} (net : Net W) (log : W → List ℕ) : Type 0 where
  pub usb_done :
      (h : ℕ) (d : List ℕ) (w : W)
      → is_done (net.usbmuxd_send h d w).0 ≡ true
      → ((net.usbmuxd_send h d w).1 ≤ length d)
        × (log (net.usbmuxd_send h d w).2 ≡ log w ++ take (net.usbmuxd_send h d w).1 d)
  pub usb_eagain :
      (h : ℕ) (d : List ℕ) (w : W)
      → is_eagain (net.usbmuxd_send h d w).0 ≡ true
      → log (net.usbmuxd_send h d w).2 ≡ log w
  pub socket_done :
      (h : ℕ) (d : List ℕ) (w : W)
      → is_done (net.socket_send h d w).0 ≡ true
      → (count (net.socket_send h d w).0 ≤ length d)
        × (log (net.socket_send h d w).1 ≡ log w ++ take (count (net.socket_send h d w).0) d)
  pub ssl_moved :
      (s : ℕ) (d : List ℕ) (t : ℕ) (st : IdeviceError) (w : W)
      → is_moved (net.ssl_write s d t st w).0 ≡ true
      → (moved_count (net.ssl_write s d t st w).0 ≤ length d)
        × (log (net.ssl_write s d t st w).2
            ≡ log w ++ take (moved_count (net.ssl_write s d t st w).0) d)
  pub ssl_want :
      (s : ℕ) (d : List ℕ) (t : ℕ) (st : IdeviceError) (w : W)
      → is_want (net.ssl_write s d t st w).0 ≡ true
      → log (net.ssl_write s d t st w).2 ≡ log w

module _ {W : Type 0} (net : Net W) (log : W → List ℕ) (laws : SendLaws net log) where
  -- `sent` bytes of `d` are out since the log read `base`.
  abbrev Out : List ℕ → List ℕ → ℕ → W → Type 0
  Out base d sent w = (sent ≤ length d) × (log w ≡ base ++ take sent d)

  -- The bytes out after a loop: all of them are in the log if the count says so.
  abbrev Sent : List ℕ → List ℕ → ℕ → W → Type 0
  Sent base d sent w = (sent ≤ length d) × (sent ≡ length d → log w ≡ base ++ d)

  Out-Sent : (base d : List ℕ) (sent : ℕ) (w : W) → Out base d sent w → Sent base d sent w
  Out-Sent base d sent w o = (o.0, λ e. o.1 ∙ ap (◌++◌ base) (take_self sent d (omega arith)))

  Out-more :
      (base d : List ℕ) (sent k : ℕ) (w w' : W)
      → length d < 2 ^ 32
      → Out base d sent w
      → k ≤ length (drop sent d)
      → log w' ≡ log w ++ take k (drop sent d)
      → Out base d (add32 sent k) w'
  Out-more base d sent k w w' small o h e =
      let fits : sent + k ≤ length d = omega (arith, length-drop sent d) in
      let whole : add32 sent k ≡ sent + k = omega arith in
      (
        omega arith,
        e
            ∙ ap (λ t. t ++ take k (drop sent d)) o.1
            ∙ append_assoc base (take sent d) (take k (drop sent d))
            ∙ ap (◌++◌ base) (sym (take-add sent k d))
            ∙ ap (λ n. base ++ take n d) (sym whole),
      )

  usbmuxd_retry_lem :
      (f h : ℕ) (d : List ℕ) (w : W) (n : ℕ) (w' : W)
      → usbmuxd_retry net f h d w ≡ ret (IdeviceError.success, n, w')
      → (n ≤ length d) × (log w' ≡ log w ++ take n d)
  unfolding usbmuxd_retry
  usbmuxd_retry_lem zero h d w n w' e = ground arith
  usbmuxd_retry_lem (suc f) h d w n w' e =
      let w1 = (net.usbmuxd_send h d w).2 in
      ground (arith, laws.usb_done h d w, laws.usb_eagain h d w, usbmuxd_retry_lem f h d w1 n w')

  socket_send_all_lem :
      (h : ℕ) (d : List ℕ) (w : W) (n : ℕ) (w' : W)
      → socket_send_all net h d w ≡ ret (IdeviceError.success, n, w')
      → (n ≤ length d) × (log w' ≡ log w ++ take n d)
  unfolding socket_send_all
  socket_send_all_lem h d w n w' e = ground (arith, laws.socket_done h d w)

  internal_connection_send_lem :
      (f : ℕ) (c : Connection) (d : List ℕ) (w : W) (n : ℕ) (w' : W)
      → internal_connection_send net f c d w ≡ ret (IdeviceError.success, n, w')
      → (n ≤ length d) × (log w' ≡ log w ++ take n d)
  unfolding internal_connection_send
  internal_connection_send_lem f c d w n w' e =
      ground (arith, usbmuxd_retry_lem f c.handle d w n w', socket_send_all_lem c.handle d w n w')

  -- What a round of the loop does with the answer of internal_connection_send.
  abbrev after : ℕ → ℕ → Connection → List ℕ → ℕ → IdeviceError × ℕ × W → Run (ℕ × W)
  after rounds f c d sent r = elim (is_success r.0) [
    | true ↦ send_loop net rounds f c d (add32 sent r.1) r.2
    | false ↦ ret (sent, r.2)
  ]

  send_loop_lem :
      (rounds f : ℕ) (c : Connection) (base d : List ℕ) (sent : ℕ) (w : W) (n : ℕ) (w' : W)
      → length d < 2 ^ 32
      → Out base d sent w
      → send_loop net rounds f c d sent w ≡ ret (n, w')
      → Sent base d n w'
  unfolding send_loop
  send_loop_lem rounds zero c base d sent w n w' small o e =
      ground (arith, Out-Sent base d sent w o)
  send_loop_lem rounds (suc f) c base d sent w n w' small o e =
      elim (Bool-cases (ltb sent (length d))) [
        | inr all ↦ ground (arith, Out-Sent base d sent w o)
        | inl more ↦
            let (r, answer, rest) =
              >>=-eq-ret (internal_connection_send net rounds c (drop sent d) w)
                (after rounds f c d sent) {b = (n, w')} (rw (more, send_loop) at e) in
            ground (
              arith,
              internal_connection_send_lem rounds c (drop sent d) w r.1 r.2,
              Out-more base d sent r.1 w r.2 small o,
              send_loop_lem rounds f c base d (add32 sent r.1) r.2 n w' small,
            )
      ]

  ssl_write_loop_lem :
      (f s : ℕ) (c : Connection) (base d : List ℕ) (sent : ℕ) (st : IdeviceError) (w : W) (n : ℕ)
      (st' : IdeviceError) (w' : W)
      → length d < 2 ^ 32
      → Out base d sent w
      → ssl_write_loop net f s c d sent st w ≡ ret (n, st', w')
      → Sent base d n w'
  unfolding ssl_write_loop
  ssl_write_loop_lem zero s c base d sent st w n st' w' small o e =
      ground (arith, Out-Sent base d sent w o)
  ssl_write_loop_lem (suc f) s c base d sent st w n st' w' small o e =
      let t = c.ssl_recv_timeout in
      let r = net.ssl_write s (drop sent d) t st w in
      let k = moved_count r.0 in
      ground (
        arith,
        Out-Sent base d sent w o,
        laws.ssl_moved s (drop sent d) t st w,
        laws.ssl_want s (drop sent d) t st w,
        Out-more base d sent k w r.2 small o,
        ssl_write_loop_lem f s c base d (add32 sent k) r.1 r.2 n st' w' small,
        ssl_write_loop_lem f s c base d sent r.1 r.2 n st' w' small,
      )

  send_plain_lem :
      (rounds : ℕ) (c : Connection) (d : List ℕ) (w : W) (n : ℕ) (l : Link W)
      → length d < 2 ^ 32
      → send_plain net rounds c d w ≡ ret (IdeviceError.success, n, l)
      → (n ≡ length d) × (log l.net ≡ log w ++ d)
  unfolding send_plain
  send_plain_lem rounds c d w n l small e =
      let (r, ran, rest) = >>=-eq-ret (send_loop net rounds rounds c d 0 w) _ e in
      let sent : Sent (log w) d r.0 r.1 =
        send_loop_lem rounds rounds c (log w) d 0 w r.0 r.1 small
          (omega arith, sym (append-nil (log w))) ran in
      ground (arith, rest, sent)

  send_ssl_lem :
      (rounds s : ℕ) (c : Connection) (d : List ℕ) (w : W) (n : ℕ) (l : Link W)
      → length d < 2 ^ 32
      → send_ssl net rounds s c d w ≡ ret (IdeviceError.success, n, l)
      → (n ≡ length d) × (log l.net ≡ log w ++ d)
  unfolding send_ssl
  send_ssl_lem rounds s c d w n l small e =
      let (r, ran, rest) =
        >>=-eq-ret (ssl_write_loop net rounds s c d 0 IdeviceError.success w) _ e in
      let sent : Sent (log w) d r.0 r.2 =
        ssl_write_loop_lem rounds s c (log w) d 0 IdeviceError.success w r.0 r.1 r.2 small
          (omega arith, sym (append-nil (log w))) ran in
      ground (arith, rest, sent)

  send_over_lem :
      (rounds : ℕ) (t : Option (Option ℕ)) (c : Connection) (d : List ℕ) (w : W) (n : ℕ)
      (l : Link W)
      → length d < 2 ^ 32
      → send_over net rounds t c d w ≡ ret (IdeviceError.success, n, l)
      → (n ≡ length d) × (log l.net ≡ log w ++ d)
  unfolding send_over
  send_over_lem rounds none c d w n l small e = send_plain_lem rounds c d w n l small e
  send_over_lem rounds (some none) c d w n l small e = ground arith
  send_over_lem rounds (some (some s)) c d w n l small e = send_ssl_lem rounds s c d w n l small e

  connection_send_lem :
      (rounds : ℕ) (c : Option Connection) (d : List ℕ) (w : W) (n : ℕ) (l : Link W)
      → length d < 2 ^ 32
      → connection_send net rounds c (some d) w ≡ ret (IdeviceError.success, n, l)
      → (n ≡ length d) × (log l.net ≡ log w ++ d)
  unfolding connection_send
  connection_send_lem rounds none d w n l small e = ground arith
  connection_send_lem rounds (some c) d w n l small e =
      send_over_lem rounds c.ssl_data c d w n l small e

  -- When idevice_connection_send reports success for fewer than 2 ^ 32 bytes of data, the count
  -- that it stores is the length of the data, and the calls below it have taken all of the data in
  -- order and nothing else, over USB, a network socket or SSL. It is assumed of those calls that
  -- they take as many bytes from the front of their buffer as they say.
  pub idevice_connection_send_complete :
      (rounds : ℕ) (d : List ℕ) (l : Link W) (n : ℕ) (l' : Link W)
      → length d < 2 ^ 32
      → idevice_connection_send net rounds (some d) l ≡ ret (IdeviceError.success, n, l')
      → (n ≡ length d) × (log l'.net ≡ log l.net ++ d)
  unfolding idevice_connection_send
  idevice_connection_send_complete rounds d l n l' small e =
      connection_send_lem rounds l.connection d l.net n l' small e
