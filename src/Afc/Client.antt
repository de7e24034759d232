-- ===== src/Afc/Client.antt =====
-- src/afc.c: the client object, its packet buffer, its lock, and afc_dispatch_packet.
pub mod Buffer
pub mod Dispatch
use libimobiledevice.Common.{
  ℕ, suc, ◌+◌, ◌-◌, ◌*◌, ◌/◌, ◌%◌, ◌^◌, ◌≤◌, Bool, true, false, not, List, [], ◌∷◌, ◌++◌, Option,
  none, some, ltb, leb, ◌==◌, if◌then◌else◌,
}
use libimobiledevice.Common.Bytes.{length}
use libimobiledevice.Common.Run.{Run, ret, faults, ◌>>=◌}
use libimobiledevice.Service.{Service}
use libimobiledevice.Afc.Error
use libimobiledevice.Afc.Error.{service_to_afc_error}
use libimobiledevice.Afc.Packet.{AfcPacket, afc_magic, header_size, afc_packet_to_le}

-- struct afc_client_private. `parent` is the service client and the world behind it, `none` for
-- NULL. `capacity` is no field of the source: it is the size that the allocator gave the buffer
-- behind the packet header, where `packet_extra` is what the client believes of it. `mutex` counts
-- how often the lock is held.
pub record Client (S : Type 0) : Type 0 where
  pub parent : Option S
  pub afc_packet : Option AfcPacket
  pub packet_extra : ℕ
  pub capacity : ℕ
  pub mutex : ℕ
  pub free_parent : Bool

-- The buffer is as large as the client believes.
pub record IsSound {S : Type 0} (c : Client S) : Type 0 where
  pub believed : c.packet_extra ≤ c.capacity
  pub started : 1024 ≤ c.packet_extra

-- The packet of a new client. The source leaves `operation` as malloc does; it is overwritten
-- before the packet is sent.
abbrev pub first_packet : AfcPacket
first_packet = record {
  magic = afc_magic;
  entire_length = 0;
  this_length = 0;
  packet_num = 0;
  operation = 0;
}

-- `data_len & ~8`, which clears the bit of value 8.
unfoldable pub clear_bit3 : ℕ → ℕ
clear_bit3 n = n - 8 * (n / 8 % 2)

module _ {S : Type 0} where
  unfoldable pub afc_lock : Client S → Client S
  afc_lock c = record c { mutex = c.mutex + 1 }

  unfoldable pub afc_unlock : Client S → Client S
  afc_unlock c = record c { mutex = c.mutex - 1 }

  -- `grants` says which sizes the allocator has memory for during the call.
  unfoldable pub afc_client_new_with_service_client : (ℕ → Bool) → Option S → ℕ × Option (Client S)
  afc_client_new_with_service_client grants none = (Error.invalid_arg, none)
  afc_client_new_with_service_client grants (some s) =
      if grants (header_size + 1024)
      then (
        Error.success,
        some (record {
          parent = some s;
          afc_packet = some first_packet;
          packet_extra = 1024;
          capacity = 1024;
          mutex = 0;
          free_parent = false;
        }),
      )
      else (Error.no_mem, none)

  -- The second part is the service client that is freed with the client, if any.
  unfoldable pub afc_client_free : Option (Client S) → ℕ × Option S
  afc_client_free none = (Error.invalid_arg, none)
  afc_client_free (some c) = elim c.afc_packet [
    | none ↦ (Error.invalid_arg, none)
    | some p ↦ (Error.success, (if c.free_parent then c.parent else none))
  ]

  -- `false` is the source's -1. The new size is stored before realloc is asked for it.
  unfoldable pub afc_check_packet_buffer : (ℕ → Bool) → ℕ → Client S → Bool × Client S
  afc_check_packet_buffer grants data_len c =
      if ltb c.packet_extra data_len
      then (let extra = (clear_bit3 data_len + 8) % 2 ^ 32 in
          let c' = record c { packet_extra = extra } in
          if grants (header_size + extra)
          then (true, record c' { capacity = extra })
          else (false, c'))
      else (true, c)

  -- The copy of `d` into AFC_PACKET_DATA_PTR.
  unfoldable pub store_data : List ℕ → Client S → Run (Client S)
  store_data d c = elim c.afc_packet [
    | none ↦ faults
    | some p ↦ if leb (length d) c.capacity then ret c else faults
  ]

-- The packet that afc_dispatch_packet fills in, for data and a payload of these lengths.
unfoldable pub next_packet : AfcPacket → ℕ → ℕ → ℕ → AfcPacket
next_packet p operation data_length payload_length = record p {
  packet_num = (p.packet_num + 1) % 2 ^ 64;
  operation = operation;
  entire_length = header_size + data_length + payload_length;
  this_length = header_size + data_length;
}

module _ {S : Type 0} (service : Service S) where
  -- `*bytes_sent += sent` for the payload, after `sent` bytes of header and data. An empty list
  -- is a payload that is NULL or has length 0.
  unfoldable pub dispatch_payload : List ℕ → ℕ → S → Client S → Run (ℕ × ℕ × Client S)
  dispatch_payload [] sent s c = ret (Error.success, sent, c)
  dispatch_payload (b ∷ bs) sent s c = service.send (b ∷ bs) s >>= λ r.
      let c' = record c { parent = some r.2 } in
      let e = service_to_afc_error r.0 in
      if not (e == Error.success)
      then ret (e, sent, c')
      else if ltb r.1 (length (b ∷ bs))
      then ret (Error.not_enough_data, sent + r.1, c')
      else ret (Error.success, sent + r.1, c')

  unfoldable pub dispatch_with :
      Option S → Option AfcPacket → ℕ → List ℕ → List ℕ → Client S → Run (ℕ × ℕ × Client S)
  dispatch_with none p operation d payload c = ret (Error.invalid_arg, 0, c)
  dispatch_with (some s) none operation d payload c = ret (Error.invalid_arg, 0, c)
  dispatch_with (some s) (some p) operation d payload c =
      let q = next_packet p operation (length d) (length payload) in
      service.send (afc_packet_to_le q ++ d) s >>= λ r.
      let c' = record c { parent = some r.2; afc_packet = some q } in
      let e = service_to_afc_error r.0 in
      if not (e == Error.success)
      then ret (e, 0, c')
      else if ltb r.1 (header_size + length d)
      then ret (Error.not_enough_data, r.1, c')
      else dispatch_payload payload r.1 r.2 c'

  -- The code, `*bytes_sent` (0 where the source leaves it alone), and the client. `d` is what has
  -- been stored behind the header.
  unfoldable pub afc_dispatch_packet : ℕ → List ℕ → List ℕ → Client S → Run (ℕ × ℕ × Client S)
  unfolding dispatch_with
  afc_dispatch_packet operation d payload c =
      dispatch_with c.parent c.afc_packet operation d payload c
