-- ===== src/Afc/Receive/RoundTrip.antt =====
-- afc_receive_data reads back a reply as the device writes it.
use libimobiledevice.Common.{
  ℕ, zero, suc, ◌+◌, ◌-◌, ◌^◌, ◌≤◌, ◌<◌, ◌≡◌, refl, sym, ap, ◌∙◌, false, List, [], ◌∷◌, ◌++◌, some,
  append-nil, arith,
}
use libimobiledevice.Common.Bytes.{length, length-append, bytes_eq, bytes_eq_refl}
use libimobiledevice.Common.Run.{ret}
use libimobiledevice.Service.{ServiceError, Service, Reliable, receive}
use libimobiledevice.Afc.Error
use libimobiledevice.Afc.Error.{service_to_afc_error}
use libimobiledevice.Afc.Packet.{
  AfcPacket, afc_magic, header_size, afc_packet_to_le, afc_packet_from_le,
}
use libimobiledevice.Afc.Packet.RoundTrip.{Fits, length-afc_packet_to_le, afc_packet_from_le-to_le}
use libimobiledevice.Afc.Client.{Client}
use libimobiledevice.Afc.Receive.{
  content_length, reply_result, header_error, is_empty, receive_loop, receive_tail,
  receive_contents, receive_checked, receive_with, afc_receive_data,
}

-- A reply to the packet `p`: its magic, its number, and the lengths of what follows, of which
-- `this_len` bytes are said to belong to the packet itself.
pub record IsReply (h p : AfcPacket) (this_len : ℕ) (content : List ℕ) : Type 0 where
  pub fits : Fits h
  pub magic : h.magic ≡ afc_magic
  pub packet_num : h.packet_num ≡ p.packet_num
  pub this_length : h.this_length ≡ header_size + this_len
  pub entire_length : h.entire_length ≡ header_size + length content
  pub part : this_len ≤ length content
  pub some_content : 0 < length content
  pub small : header_size + length content < 2 ^ 32

content_length-add : (n : ℕ) → header_size + n < 2 ^ 32 → content_length (header_size + n) ≡ n
unfolding content_length
content_length-add n h = omega arith

header_error-reply :
    (h p : AfcPacket) (this_len : ℕ) (content : List ℕ)
    → IsReply h p this_len content
    → header_error h p.packet_num ≡ Error.success
unfolding header_error
header_error-reply h p this_len content r =
    ground (arith, r.magic, bytes_eq_refl afc_magic, ap (λ m. bytes_eq m afc_magic) r.magic)

is_empty-reply :
    (h p : AfcPacket) (this_len : ℕ) (content : List ℕ)
    → IsReply h p this_len content
    → is_empty h ≡ false
unfolding is_empty
is_empty-reply h p this_len content r = ground arith

module _ {S : Type 0} (service : Service S) (pending : S → List ℕ)
    (reliable : Reliable service pending) where
  receive_loop_done :
      (f entire : ℕ) (buf : List ℕ) (s : S)
      → length buf ≡ entire
      → receive_loop service f entire buf s ≡ ret (Error.success, buf, s)
  unfolding receive_loop
  receive_loop_done zero entire buf s h = ground arith
  receive_loop_done (suc f) entire buf s h = ground arith

  -- The rest of the content comes in one round.
  receive_loop_round :
      (f : ℕ) (buf more : List ℕ) (s s' : S)
      → 0 < length more
      → receive service (length buf + length more - length buf) s
        ≡ ret (ServiceError.success, more, s')
      → receive_loop service (suc f) (length buf + length more) buf s
        ≡ ret (Error.success, buf ++ more, s')
  unfolding receive_loop service_to_afc_error
  receive_loop_round f buf more s s' h e = ground (
    arith,
    e,
    length-append buf more,
    receive_loop_done f (length buf + length more) (buf ++ more) s',
  )

  receive_loop_all :
      (n : ℕ) (buf more : List ℕ) (s s' : S)
      → 0 < n
      → 0 < length more
      → receive service (length buf + length more - length buf) s
        ≡ ret (ServiceError.success, more, s')
      → receive_loop service n (length buf + length more) buf s
        ≡ ret (Error.success, buf ++ more, s')
  receive_loop_all zero buf more s s' k h e = elim k [ ]
  receive_loop_all (suc f) buf more s s' k h e = receive_loop_round f buf more s s' h e

  receive_tail_end :
      (operation entire : ℕ) (buf whole : List ℕ) (s s' : S) (c : Client S)
      → receive_loop service (entire - length buf) entire buf s ≡ ret (Error.success, whole, s')
      → length whole ≡ entire
      → receive_tail service operation entire buf s c
        ≡ ret (
          (reply_result operation whole).0,
          (reply_result operation whole).1,
          record c { parent = some s' },
        )
  unfolding receive_tail
  receive_tail_end operation entire buf whole s s' c e h = ground (arith, e)

  receive_tail-reply :
      (operation : ℕ) (buf more rest : List ℕ) (s : S) (c : Client S)
      → pending s ≡ more ++ rest
      → let q = reply_result operation (buf ++ more) in
        (s' : S) × (receive_tail service operation (length buf + length more) buf s c
          ≡ ret (q.0, q.1, record c { parent = some s' }))
        × (pending s' ≡ rest)
  receive_tail-reply operation buf [] rest s c e = (
    s,
    receive_tail_end operation (length buf + 0) buf (buf ++ []) s s c
        (receive_loop_done _ (length buf + 0) buf s (omega arith) ∙ rw (append-nil buf))
        (length-append buf []),
    e,
  )
  receive_tail-reply operation buf (b ∷ bs) rest s c e =
      let more = b ∷ bs in
      let (s', got, left) =
        reliable.deliver (length buf + length more - length buf) 30000 s more rest e (omega arith)
          (omega arith) in
      (
        s',
        receive_tail_end operation (length buf + length more) buf (buf ++ more) s s' c
            (receive_loop_all _ buf more s s' (omega arith) (omega arith) got)
            (length-append buf more),
        left,
      )

  receive_contents-reply :
      (operation : ℕ) (front more rest : List ℕ) (s : S) (c : Client S)
      → pending s ≡ front ++ (more ++ rest)
      → let q = reply_result operation (front ++ more) in
        (s' : S) × (receive_contents service operation
            (length front + length more)
            (length front)
            s
            c
          ≡ ret (q.0, q.1, record c { parent = some s' }))
        × (pending s' ≡ rest)
  unfolding receive_contents service_to_afc_error
  receive_contents-reply operation [] more rest s c e =
      let (s', got, left) = receive_tail-reply operation [] more rest s c e in (s', got, left)
  receive_contents-reply operation (b ∷ bs) more rest s c e =
      let front = b ∷ bs in
      let (s1, got1, left1) =
        reliable.deliver (length front) 30000 s front (more ++ rest) e refl (omega arith) in
      let c1 = record c { parent = some s1 } in
      let (s', got, left) = receive_tail-reply operation front more rest s1 c1 left1 in
      (s', ground (arith, got1, got), left)

  -- A reply is read back, on a client that has a service client and the packet that the reply
  -- answers. Where a header with the right magic and number is followed by the contents whose
  -- lengths it states, of which the front belongs to the packet itself, afc_receive_data returns
  -- what the operation and the whole contents come to, changes nothing of the client but the state
  -- of its connection, and leaves unread exactly what stood behind the reply. It is assumed that
  -- a read of bytes that the device has sent comes back whole, and that the reply has contents
  -- and is shorter than 2 ^ 32 bytes.
  pub afc_receive_data-reply :
      (h p : AfcPacket) (front more rest : List ℕ) (s : S) (c : Client S)
      → c.parent ≡ some s
      → c.afc_packet ≡ some p
      → IsReply h p (length front) (front ++ more)
      → pending s ≡ afc_packet_to_le h ++ (front ++ (more ++ rest))
      → let q = reply_result h.operation (front ++ more) in
        (s' : S) × (afc_receive_data service c ≡ ret (q.0, q.1, record c { parent = some s' }))
        × (pending s' ≡ rest)
  unfolding afc_receive_data receive_with receive_checked service_to_afc_error
  afc_receive_data-reply h p front more rest s c hs hp r e =
      let magic : length h.magic ≡ 8 = r.fits.magic in
      let (s1, got1, left1) =
        reliable.deliver header_size 30000 s (afc_packet_to_le h) (front ++ (more ++ rest)) e
          (length-afc_packet_to_le h magic) (omega arith) in
      let c1 = record c { parent = some s1 } in
      let (s', got, left) = receive_contents-reply h.operation front more rest s1 c1 left1 in
      let header : afc_packet_from_le (afc_packet_to_le h) ≡ h =
        ap afc_packet_from_le (sym (append-nil (afc_packet_to_le h)))
        ∙ afc_packet_from_le-to_le h [] r.fits in
      let entire : content_length h.entire_length ≡ length front + length more =
        ap content_length r.entire_length
        ∙ content_length-add (length (front ++ more)) r.small
        ∙ length-append front more in
      let this : content_length h.this_length ≡ length front =
        ap content_length r.this_length
        ∙ content_length-add (length front) (omega (arith, r.part, r.small)) in
      (
        s',
        rw (hs, afc_receive_data)
            (ground (
              arith,
              got1,
              hp,
              header,
              length-afc_packet_to_le h magic,
              header_error-reply h p (length front) (front ++ more) r,
              is_empty-reply h p (length front) (front ++ more) r,
              entire,
              this,
              got,
            )),
        left,
      )
