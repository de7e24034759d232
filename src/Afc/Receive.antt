-- ===== src/Afc/Receive.antt =====
-- src/afc.c: afc_receive_data, which reads the reply to a request.
pub mod Faults
pub mod Keeps
pub mod RoundTrip
use libimobiledevice.Common.{
  ℕ, zero, suc, ◌+◌, ◌-◌, ◌%◌, ◌^◌, Bool, true, false, not, ◌&&◌, ◌||◌, List, [], ◌++◌, Option,
  none, some, ltb, leb, ◌==◌, if◌then◌else◌,
}
use libimobiledevice.Common.Bytes.{length, take, bytes_eq, from_le}
use libimobiledevice.Common.Run.{Run, ret, hangs, faults, ◌>>=◌}
use libimobiledevice.Service.{Service, receive}
use libimobiledevice.Afc.Error
use libimobiledevice.Afc.Error.{service_to_afc_error}
use libimobiledevice.Afc.Op
use libimobiledevice.Afc.Packet.{AfcPacket, afc_magic, header_size, afc_packet_from_le}
use libimobiledevice.Afc.Client.{Client}

-- `(uint32_t)length - sizeof(AFCPacket)`, stored in a uint32_t.
unfoldable pub content_length : ℕ → ℕ
content_length n = (n % 2 ^ 32 + 2 ^ 32 - header_size) % 2 ^ 32

-- The first eight bytes of the reply as a number, or (uint64_t)-1.
unfoldable pub param1 : List ℕ → ℕ
param1 buf = if leb 8 (length buf) then from_le (take 8 buf) else 0xffff_ffff_ffff_ffff

-- What a reply with this operation and these contents comes to: a code, and the buffer if it is
-- handed on. A status is cast to afc_error_t, which keeps its low 32 bits.
unfoldable pub reply_result : ℕ → List ℕ → ℕ × Option (List ℕ)
reply_result operation buf =
    if operation == Op.status
    then (if not (param1 buf == Error.success)
        then (param1 buf % 2 ^ 32, none)
        else (Error.success, some buf))
    else if operation == Op.op_data
        || operation == Op.file_open_res
        || operation == Op.file_tell_res
    then (Error.success, some buf)
    else (Error.op_not_supported, none)

-- The header is a good one for the packet numbered `num`; its error, or success.
unfoldable pub header_error : AfcPacket → ℕ → ℕ
header_error h num =
    if not (bytes_eq h.magic afc_magic)
    then Error.unknown_packet_type
    else if not (h.packet_num == num)
    then Error.op_header_invalid
    else if ltb h.this_length header_size
    then Error.op_header_invalid
    else Error.success

-- Nothing follows the header.
unfoldable pub is_empty : AfcPacket → Bool
is_empty h = h.this_length == h.entire_length && h.entire_length == header_size

module _ {S : Type 0} (service : Service S) where
  -- `while (current_count < entire_len)`, `buf` being what the buffer of `entire` bytes holds; the
  -- code of the last call, the buffer, the state. Each round but the last adds a byte at least.
  unfoldable pub receive_loop : ℕ → ℕ → List ℕ → S → Run (ℕ × List ℕ × S)
  receive_loop zero entire buf s =
      if ltb (length buf) entire then hangs else ret (Error.success, buf, s)
  receive_loop (suc f) entire buf s = elim (ltb (length buf) entire) [
    | false ↦ ret (Error.success, buf, s)
    | true ↦ receive service (entire - length buf) s >>= λ r.
        let e = service_to_afc_error r.0 in
        elim (not (e == Error.success) || length r.1 == 0) [
          | true ↦ ret (e, buf, r.2)
          | false ↦ elim (ltb entire (length buf + length r.1)) [
            | true ↦ faults
            | false ↦ receive_loop f entire (buf ++ r.1) r.2
          ]
        ]
  ]

  -- From the loop on: `buf` holds the `this_len` bytes that are there.
  unfoldable pub receive_tail : ℕ → ℕ → List ℕ → S → Client S → Run (ℕ × Option (List ℕ) × Client S)
  receive_tail operation entire buf s c = receive_loop (entire - length buf) entire buf s >>= λ r.
      let c' = record c { parent = some r.2 } in
      if ltb (length r.1) entire
      then ret ((if r.0 == Error.success then Error.end_of_data else r.0), none, c')
      else (let q = reply_result operation r.1 in ret (q.0, q.1, c'))

  -- From the allocation of the buffer on. After an error in the first read the source frees the
  -- buffer and goes on: it frees it again, uses it or hands it on.
  unfoldable pub receive_contents : ℕ → ℕ → ℕ → S → Client S → Run (ℕ × Option (List ℕ) × Client S)
  receive_contents operation entire this_len s c =
      if this_len == 0
      then receive_tail operation entire [] s c
      else receive service this_len s >>= λ r.
          let c' = record c { parent = some r.2 } in
          if not (service_to_afc_error r.0 == Error.success)
          then faults
          else if ltb entire (length r.1)
          then faults
          else if length r.1 == 0
          then ret (Error.not_enough_data, none, c')
          else if ltb (length r.1) this_len
          then ret (Error.end_of_data, none, c')
          else receive_tail operation entire r.1 r.2 c'

  unfoldable pub receive_checked :
      AfcPacket → Option AfcPacket → S → Client S → Run (ℕ × Option (List ℕ) × Client S)
  receive_checked h none s c = faults
  receive_checked h (some p) s c =
      let e = header_error h p.packet_num in
      if not (e == Error.success)
      then ret (e, none, c)
      else if is_empty h
      then ret ((if h.operation == Op.op_data then Error.success else Error.io_error), none, c)
      else receive_contents h.operation (content_length h.entire_length)
          (content_length h.this_length) s c

  unfoldable pub receive_with : Option S → Client S → Run (ℕ × Option (List ℕ) × Client S)
  receive_with none c = ret (Error.invalid_arg, none, c)
  receive_with (some s) c = receive service header_size s >>= λ r.
      let c' = record c { parent = some r.2 } in
      let e = service_to_afc_error r.0 in
      if not (e == Error.success)
      then ret (e, none, c')
      else if ltb (length r.1) header_size
      then ret (Error.not_enough_data, none, c')
      else receive_checked (afc_packet_from_le r.1) c.afc_packet r.2 c'

  -- The code, the buffer that is handed on, whose length is `*bytes_recv`, and the client.
  unfoldable pub afc_receive_data : Client S → Run (ℕ × Option (List ℕ) × Client S)
  unfolding receive_with
  afc_receive_data c = receive_with c.parent c
