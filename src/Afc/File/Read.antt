-- ===== src/Afc/File/Read.antt =====
-- afc_file_read: what it copies into the caller's buffer.
use libimobiledevice.Common.{
  ℕ, ◌+◌, ◌≤◌, ◌≡◌, ◌≢◌, true, not, ◌||◌, List, [], ◌++◌, Option, none, some, arith, ◌==◌, inl, inr,
  Bool-cases,
}
use libimobiledevice.Common.Run.{ret, >>=-eq-ret}
use libimobiledevice.Common.Bytes.{
  length, length-append, length-take-le, take, le_bytes, length-le_bytes,
}
use libimobiledevice.Service.{Service, Reliable}
use libimobiledevice.Afc.Error
use libimobiledevice.Afc.Op
use libimobiledevice.Afc.Packet.{AfcPacket, afc_packet_to_le}
use libimobiledevice.Afc.Client.{Client, afc_lock, afc_unlock, store_data, afc_dispatch_packet}
use libimobiledevice.Afc.Receive.{reply_result}
use libimobiledevice.Afc.Receive.RoundTrip.{IsReply, afc_receive_data-reply}
use libimobiledevice.Afc.Command.{is_ready, exchange, fixed_request}
use libimobiledevice.Afc.File.{read_reply, afc_file_read}

data-IsReply :
    (operation : ℕ) (d : List ℕ)
    → operation ≡ Op.op_data
    → reply_result operation d ≡ (Error.success, some d)
unfolding reply_result
data-IsReply operation d h = ground arith

module _ {S : Type 0} (service : Service S) where
  read_reply-bounded :
      (e : ℕ) (d : Option (List ℕ)) (len : ℕ) (bs : List ℕ)
      → read_reply service e d len ≡ some bs
      → length bs ≤ len
  unfolding read_reply
  read_reply-bounded e none len bs h = ground arith
  read_reply-bounded e (some d) len bs h = ground (arith, length-take-le len d)

  -- Whatever the device answers, afc_file_read copies at most as many bytes as the caller's buffer
  -- has room for, and reports no more.
  afc_file_read-bounded :
      (c : Option (Client S)) (n len e : ℕ) (bs : List ℕ) (c' : Option (Client S))
      → afc_file_read service c n len ≡ ret (e, some bs, c')
      → length bs ≤ len
  unfolding afc_file_read
  afc_file_read-bounded none n len e bs c' h = ground arith
  afc_file_read-bounded (some c) n len e bs c' h = elim (Bool-cases (not (is_ready c) || n == 0)) [
    | inl refused ↦ ground arith
    | inr open_handle ↦
        let (r, ran, rest) =
          >>=-eq-ret
            (fixed_request service Op.file_read (le_bytes 8 n ++ le_bytes 8 len)
              Error.not_enough_data c)
            (λ r. ret (r.0, read_reply service r.0 r.1 len, some r.2)) {b = (e, some bs, c')}
            (rw (open_handle, afc_file_read) at h) in
        ground (arith, rest, read_reply-bounded r.0 r.1 len bs)
  ]

  module _ (pending : S → List ℕ) (reliable : Reliable service pending) where
    -- A read that the device answers with data gives the caller those data, cut to the length of
    -- the buffer, and leaves unread what stands behind the answer. It is stated for a ready client
    -- with room for the request and a handle that is not 0, whose request goes out, over a
    -- connection where a read of bytes that the device has sent comes back whole.
    pub afc_file_read-reply :
        (n len sent : ℕ) (c c1 : Client S) (h p : AfcPacket) (front more rest : List ℕ) (s : S)
        → is_ready c ≡ true
        → n ≢ 0
        → 16 ≤ c.capacity
        → afc_dispatch_packet service Op.file_read
            (le_bytes 8 n ++ le_bytes 8 len)
            []
            (record c { mutex = c.mutex + 1 })
          ≡ ret (Error.success, sent, c1)
        → c1.parent ≡ some s
        → c1.afc_packet ≡ some p
        → IsReply h p (length front) (front ++ more)
        → h.operation ≡ Op.op_data
        → pending s ≡ afc_packet_to_le h ++ (front ++ (more ++ rest))
        → (s' : S) × (afc_file_read service (some c) n len
            ≡ ret (
              Error.success,
              some (take len (front ++ more)),
              some (afc_unlock (record c1 { parent = some s' })),
            ))
          × (pending s' ≡ rest)
    unfolding afc_file_read fixed_request exchange store_data afc_lock read_reply is_ready
    afc_file_read-reply n len sent c c1 h p front more rest s ready open_handle room out hs hp r
          data_op e =
        let (s', got, left) =
          afc_receive_data-reply service pending reliable h p front more rest s c1 hs hp r e in
        (
          s',
          ground (
            arith,
            length-append (le_bytes 8 n) (le_bytes 8 len),
            length-le_bytes 8 n,
            length-le_bytes 8 len,
            out,
            got,
            data-IsReply h.operation (front ++ more) data_op,
          ),
          left,
        )
