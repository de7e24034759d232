-- ===== src/Afc/File.antt =====
-- src/afc.c: the operations on open files.
pub mod Write
pub mod Read
use libimobiledevice.Common.{
  ℕ, suc, ◌+◌, ◌-◌, ◌%◌, ◌^◌, Bool, not, ◌||◌, List, [], ◌∷◌, ◌++◌, Option, none, some, ltb, ◌==◌,
  if◌then◌else◌,
}
use libimobiledevice.Common.Bytes.{length, take, le_bytes, from_le}
use libimobiledevice.Common.Run.{Run, ret, faults, ◌>>=◌}
use libimobiledevice.Service.{Service}
use libimobiledevice.Afc.Error
use libimobiledevice.Afc.Op
use libimobiledevice.Afc.Packet.{header_size}
use libimobiledevice.Afc.Client.{Client, afc_lock, afc_unlock, store_data, afc_dispatch_packet}
use libimobiledevice.Afc.Receive.{afc_receive_data}
use libimobiledevice.Afc.Command.{c_string, is_ready, code_only, request, fixed_request}
use libimobiledevice.Afc.Strings.{Text}
use libimobiledevice.Afc.Path.{keep}

-- `memcpy(p, data, sizeof(uint64_t))`, which the source makes of any reply that has a byte.
unfoldable pub read_u64 : List ℕ → Run ℕ
read_u64 d = if ltb (length d) 8 then faults else ret (from_le (take 8 d))

-- The number in a reply, where the code is a success and the reply has data.
unfoldable pub reply_handle : ℕ → Option (List ℕ) → Run ℕ
reply_handle e none = ret 0
reply_handle e (some []) = ret 0
reply_handle e (some (b ∷ bs)) = if e == Error.success then read_u64 (b ∷ bs) else ret 0

-- The number in a reply that has data; `none` leaves the result alone.
unfoldable pub reply_position : Option (List ℕ) → Run (Option ℕ)
reply_position none = ret none
reply_position (some []) = ret none
reply_position (some (b ∷ bs)) = read_u64 (b ∷ bs) >>= λ v. ret (some v)

-- `bytes_loc - (sizeof(AFCPacket) + 8)` in a uint32_t.
unfoldable pub written_count : ℕ → ℕ
written_count bytes_loc = (bytes_loc + 2 ^ 32 - (header_size + 8)) % 2 ^ 32

-- As in `Path`, NULL is `none`, and a result that is not stored is `none`.
module _ {S : Type 0} (service : Service S) where
  -- The code, `*handle`, the client.
  unfoldable pub afc_file_open :
      (ℕ → Bool) → Option (Client S) → Text → ℕ → Run (ℕ × Option ℕ × Option (Client S))
  afc_file_open grants none filename file_mode = ret (Error.invalid_arg, none, none)
  afc_file_open grants (some c) filename file_mode =
      if is_ready c
      then (request service grants Op.file_open (le_bytes 8 file_mode ++ c_string filename)
            Error.not_enough_data keep c
          >>= λ r. reply_handle r.0 r.1 >>= λ h. ret (r.0, some h, some r.2))
      else ret (Error.invalid_arg, none, some c)

  -- What `data` receives, its length being `*bytes_read`, for a reply.
  unfoldable pub read_reply : ℕ → Option (List ℕ) → ℕ → Option (List ℕ)
  read_reply e d len =
      if e == Error.success then some (elim d [ none ↦ [] | some bs ↦ take len bs ]) else none

  unfoldable pub afc_file_read :
      Option (Client S) → ℕ → ℕ → Run (ℕ × Option (List ℕ) × Option (Client S))
  afc_file_read none handle len = ret (Error.invalid_arg, none, none)
  afc_file_read (some c) handle len =
      if not (is_ready c) || handle == 0
      then ret (Error.invalid_arg, none, some c)
      else fixed_request service Op.file_read (le_bytes 8 handle ++ le_bytes 8 len)
          Error.not_enough_data c
        >>= λ r. ret (r.0, read_reply r.0 r.1 len, some r.2)

  -- From afc_dispatch_packet on: the code, `*bytes_written`, the client.
  unfoldable pub write_exchange : ℕ → List ℕ → Client S → Run (ℕ × Option ℕ × Option (Client S))
  write_exchange handle d c =
      afc_dispatch_packet service Op.file_write (le_bytes 8 handle) d c >>= λ r.
      let written = some (written_count r.1) in
      if not (r.0 == Error.success)
      then ret (Error.success, written, some (afc_unlock r.2))
      else afc_receive_data service r.2 >>= λ q. ret (q.0, written, some (afc_unlock q.2))

  unfoldable pub afc_file_write :
      Option (Client S) → ℕ → List ℕ → Run (ℕ × Option ℕ × Option (Client S))
  afc_file_write none handle d = ret (Error.invalid_arg, none, none)
  afc_file_write (some c) handle d =
      if not (is_ready c) || handle == 0
      then ret (Error.invalid_arg, none, some c)
      else store_data (le_bytes 8 handle) (afc_lock c) >>= λ c'. write_exchange handle d c'

  abbrev pub FileAnswer : Type 0
  FileAnswer = Run (ℕ × Option (Client S))

  -- A request for an open file, on a client that is not NULL and a handle that is not 0.
  unfoldable pub handle_request : ℕ → ℕ → List ℕ → ℕ → Option (Client S) → FileAnswer
  handle_request operation handle d unsent none = ret (Error.invalid_arg, none)
  handle_request operation handle d unsent (some c) =
      if handle == 0
      then ret (Error.invalid_arg, some c)
      else code_only (fixed_request service operation (le_bytes 8 handle ++ d) unsent c)

  unfoldable pub afc_file_close : Option (Client S) → ℕ → FileAnswer
  afc_file_close c handle = handle_request Op.file_close handle [] Error.unknown_error c

  unfoldable pub afc_file_lock : Option (Client S) → ℕ → ℕ → FileAnswer
  afc_file_lock c handle operation =
      handle_request Op.file_lock handle (le_bytes 8 operation) Error.unknown_error c

  -- `whence` and `offset` are the bit patterns of the int and the int64_t as a uint64_t.
  unfoldable pub afc_file_seek : Option (Client S) → ℕ → ℕ → ℕ → FileAnswer
  afc_file_seek c handle offset whence =
      handle_request Op.file_seek handle (le_bytes 8 whence ++ le_bytes 8 offset)
        Error.not_enough_data c

  unfoldable pub afc_file_truncate : Option (Client S) → ℕ → ℕ → FileAnswer
  afc_file_truncate c handle newsize =
      handle_request Op.file_set_size handle (le_bytes 8 newsize) Error.not_enough_data c

  -- The code, `*position` if it is stored, the client.
  unfoldable pub afc_file_tell : Option (Client S) → ℕ → Run (ℕ × Option ℕ × Option (Client S))
  afc_file_tell none handle = ret (Error.invalid_arg, none, none)
  afc_file_tell (some c) handle =
      if handle == 0
      then ret (Error.invalid_arg, none, some c)
      else fixed_request service Op.file_tell (le_bytes 8 handle) Error.not_enough_data c >>= λ r.
          reply_position r.1 >>= λ p. ret (r.0, p, some r.2)
