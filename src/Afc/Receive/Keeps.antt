-- ===== src/Afc/Receive/Keeps.antt =====
-- afc_receive_data changes nothing of the client but the state of its connection.
use libimobiledevice.Common.{
  ℕ, ◌-◌, ◌≡◌, List, [], Option, none, some, arith, ◌==◌, Bool-cases, inl, inr,
}
use libimobiledevice.Common.Run.{Run, ret, >>=-eq-ret}
use libimobiledevice.Common.Bytes.{length}
use libimobiledevice.Service.{Service, receive}
use libimobiledevice.Afc.Packet.{AfcPacket, header_size, afc_packet_from_le}
use libimobiledevice.Afc.Client.{Client}
use libimobiledevice.Afc.Client.Dispatch.{Same}
use libimobiledevice.Afc.Receive.{
  content_length, receive_loop, receive_tail, receive_contents, receive_checked, receive_with,
  afc_receive_data,
}

module _ {S : Type 0} (service : Service S) where
  abbrev Keeps : Client S → Run (ℕ × Option (List ℕ) × Client S) → Type 0
  Keeps c m = (r : ℕ × Option (List ℕ) × Client S) → m ≡ ret r → Same c r.2

  receive_tail-Keeps :
      (operation entire : ℕ) (buf : List ℕ) (s : S) (c : Client S)
      → Keeps c (receive_tail service operation entire buf s c)
  unfolding receive_tail
  receive_tail-Keeps operation entire buf s c r h =
      let (q, ran, rest) =
        >>=-eq-ret (receive_loop service (entire - length buf) entire buf s) _ h in
      ground (arith, rest)

  receive_contents-Keeps :
      (operation entire this_len : ℕ) (s : S) (c : Client S)
      → Keeps c (receive_contents service operation entire this_len s c)
  unfolding receive_contents
  receive_contents-Keeps operation entire this_len s c r h = elim (Bool-cases (this_len == 0)) [
    | inl e ↦ receive_tail-Keeps operation entire [] s c r (rw (e, receive_contents) at h)
    | inr e ↦
        let (q, ran, rest) =
          >>=-eq-ret (receive service this_len s) _ (rw (e, receive_contents) at h) in
        ground (
          arith,
          rest,
          receive_tail-Keeps operation entire q.1 q.2 (record c { parent = some q.2 }) r,
        )
  ]

  receive_checked-Keeps :
      (h : AfcPacket) (p : Option AfcPacket) (s : S) (c : Client S)
      → Keeps c (receive_checked service h p s c)
  unfolding receive_checked
  receive_checked-Keeps h none s c r e = ground arith
  receive_checked-Keeps h (some p) s c r e = ground (
    arith,
    receive_contents-Keeps h.operation (content_length h.entire_length)
        (content_length h.this_length) s c r,
  )

  receive_with-Keeps : (s : Option S) (c : Client S) → Keeps c (receive_with service s c)
  unfolding receive_with
  receive_with-Keeps none c r e = ground arith
  receive_with-Keeps (some s) c r e =
      let (q, ran, rest) = >>=-eq-ret (receive service header_size s) _ e in
      let c1 = record c { parent = some q.2 } in
      ground (arith, rest, receive_checked-Keeps (afc_packet_from_le q.1) c.afc_packet q.2 c1 r)

  pub afc_receive_data-Keeps : (c : Client S) → Keeps c (afc_receive_data service c)
  unfolding afc_receive_data
  afc_receive_data-Keeps c = receive_with-Keeps c.parent c
