-- ===== src/Service/Contract.antt =====
-- src/service.c keeps the contract of a byte service, over any connection.
use libimobiledevice.Common.{
  ℕ, ◌^◌, ◌≤◌, ◌<◌, ◌≡◌, true, List, [], ◌∷◌, ◌++◌, Option, none, some, arith, inl, inr, Bool-cases,
  ◌==◌, if◌then◌else◌,
}
use libimobiledevice.Common.Bytes.{length}
use libimobiledevice.Common.Run.{>>=-eq-ret, Run, ret}
use libimobiledevice.Idevice.{IdeviceError, Net, Connection, Link, link_of}
use libimobiledevice.Idevice.Send.{idevice_connection_send}
use libimobiledevice.Idevice.Receive.{idevice_connection_receive_timeout}
use libimobiledevice.Idevice.Send.Complete.{SendLaws, idevice_connection_send_complete}
use libimobiledevice.Idevice.Send.Full.{connection_send-full}
use libimobiledevice.Idevice.Receive.Bounds.{ReceiveLaws, idevice_connection_receive_timeout-Takes}
use libimobiledevice.Service.{
  ServiceError, Host, host_of, IsTransport, idevice_to_service_error, stores, send_from,
  service_send, receive_from, service_receive_with_timeout, service_of,
}

-- What receive_from makes of the answer of idevice_connection_receive_timeout.
abbrev answer : (W : Type 0) → IdeviceError × List ℕ × Link W → Run (ServiceError × List ℕ × Host W)
answer W r =
    let e = idevice_to_service_error r.0 in ret (e, (if stores e then r.1 else []), host_of r.2)

module _ {W : Type 0} (net : Net W) (log pending : W → List ℕ) (sends : SendLaws net log)
    (receives : ReceiveLaws net pending) (rounds : ℕ) where
  send_from_complete :
      (c : Option (Option Connection)) (d : List ℕ) (w : W) (n : ℕ) (s' : Host W)
      → length d < 2 ^ 32
      → send_from net rounds c d w ≡ ret (ServiceError.success, n, s')
      → (n ≡ length d) × (log s'.net ≡ log w ++ d)
  unfolding send_from idevice_to_service_error
  send_from_complete none d w n s' small e = ground arith
  send_from_complete (some none) d w n s' small e = ground arith
  send_from_complete (some (some c)) [] w n s' small e = ground arith
  send_from_complete (some (some c)) (b ∷ d) w n s' small e =
      let (r, ran, rest) =
        >>=-eq-ret (idevice_connection_send net rounds (some (b ∷ d)) (link_of c w)) _ e in
      ground (
        arith,
        rest,
        idevice_connection_send_complete net log sends rounds (b ∷ d) (link_of c w) r.1 r.2 small,
      )

  send_from-full :
      (c : Option (Option Connection)) (d : List ℕ) (w : W) (e : ServiceError) (n : ℕ) (s' : Host W)
      → 0 < length d
      → send_from net rounds c d w ≡ ret (e, n, s')
      → n ≡ length d
      → e ≡ ServiceError.success
  unfolding send_from idevice_to_service_error
  send_from-full none d w e n s' k h full = ground arith
  send_from-full (some none) d w e n s' k h full = ground arith
  send_from-full (some (some c)) [] w e n s' k h full = elim k [ ]
  send_from-full (some (some c)) (b ∷ d) w e n s' k h full =
      let (r, ran, rest) =
        >>=-eq-ret (idevice_connection_send net rounds (some (b ∷ d)) (link_of c w)) _ h in
      ground (arith, rest, connection_send-full net rounds c (b ∷ d) w r k ran)

  receive_from-next :
      (c : Option (Option Connection)) (len millis : ℕ) (w : W) (e : ServiceError) (bs : List ℕ)
      (s' : Host W)
      → receive_from net rounds c len millis w ≡ ret (e, bs, s')
      → (length bs ≤ len) × (stores e ≡ true → pending w ≡ bs ++ pending s'.net)
  unfolding receive_from
  receive_from-next none len millis w e bs s' h = ground arith
  receive_from-next (some none) len millis w e bs s' h = ground arith
  receive_from-next (some (some c)) len millis w e bs s' h = elim (Bool-cases (len == 0)) [
    | inl empty ↦ ground arith
    | inr some_bytes ↦
        let (r, ran, rest) =
          >>=-eq-ret (idevice_connection_receive_timeout net rounds len millis (link_of c w))
            (answer W) (rw (some_bytes, receive_from) at h) in
        ground (
          arith,
          rest,
          idevice_connection_receive_timeout-Takes net pending receives rounds len millis
              (link_of c w) r.0 r.1 r.2 ran,
        )
  ]

  -- service_send and service_receive_with_timeout keep the contract of a byte service, over the
  -- bytes that leave for the device and those that it has sent, for every connection and every
  -- bound on the loops: a success of the first means that all of the data went out, and a count as
  -- large as the data comes with a success; the second hands over at most what was asked for, and
  -- when it stores a count (on success and on a time-out) the bytes handed over are the next ones
  -- and no others are gone. It is assumed that the calls below the connection keep theirs.
  pub service-IsTransport :
      IsTransport (service_of net rounds) (λ s. log s.net) (λ s. pending s.net)
  unfolding service_send service_receive_with_timeout
  service-IsTransport = record {
    send_complete = λ d s n s' small e. send_from_complete s.client d s.net n s' small e;
    send_full = λ d s e n s' k h full. send_from-full s.client d s.net e n s' k h full;
    receive_bounded =
        λ len millis s e bs s' h. (receive_from-next s.client len millis s.net e bs s' h).0;
    receive_next =
        λ len millis s e bs s' h. (receive_from-next s.client len millis s.net e bs s' h).1;
  }
