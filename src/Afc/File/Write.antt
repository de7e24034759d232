-- ===== src/Afc/File/Write.antt =====
-- afc_file_write: the count that it reports, on every way out.
use libimobiledevice.Common.{ℕ, ◌+◌, ◌-◌, ◌≤◌, ◌≡◌, ◌≢◌, ◌⊎◌, ap, List, ◌++◌, some, arith}
use libimobiledevice.Common.Run.{ret}
use libimobiledevice.Common.Bytes.{length, le_bytes, length-le_bytes}
use libimobiledevice.Service.{ServiceError, Service, IsTransport}
use libimobiledevice.Afc.Error
use libimobiledevice.Afc.Error.{service_to_afc_error}
use libimobiledevice.Afc.Op
use libimobiledevice.Afc.Packet.{AfcPacket, afc_packet_to_le}
use libimobiledevice.Afc.Client.{
  Client, afc_lock, afc_unlock, store_data, next_packet, afc_dispatch_packet,
}
use libimobiledevice.Afc.Client.Dispatch.{service_to_afc_error-success}
use libimobiledevice.Afc.Command.{is_ready}
use libimobiledevice.Afc.File.{written_count, write_exchange, afc_file_write}

module _ {S : Type 0} (service : Service S) (log pending : S → List ℕ)
    (contract : IsTransport service log pending) where
  -- How many bytes afc_dispatch_packet reports, by what went wrong: all of them on a success, and
  -- after a failure none, or header and data if it was the payload that failed.
  abbrev Counted : ℕ → ℕ → ℕ → ℕ → Type 0
  Counted e n front payload =
      ((e ≡ Error.success) × (n ≡ front + payload))
      ⊎ ((e ≢ Error.success) × ((n ≡ 0) ⊎ (n ≡ front)))

-- Whenever the service refuses the header of a write, on a ready client with a sound buffer and a
-- handle that is not 0, afc_file_write returns AFC_E_SUCCESS and says that 4294967248 bytes were
-- written.
afc_file_write_refused :
    {S : Type 0} (service : Service S) (n : ℕ) (d : List ℕ) (c : Client S) (s s' : S)
    (p : AfcPacket) (e : ServiceError) (k : ℕ)
    → c.parent ≡ some s
    → c.afc_packet ≡ some p
    → 1024 ≤ c.capacity
    → n ≢ 0
    → let q = next_packet p Op.file_write 8 (length d) in
      service.send (afc_packet_to_le q ++ le_bytes 8 n) s ≡ ret (e, k, s')
      → e ≢ ServiceError.success
      → (c' : Client S) × (afc_file_write service (some c) n d
          ≡ ret (Error.success, some 4294967248, some c'))
unfolding afc_file_write store_data afc_lock afc_unlock write_exchange afc_dispatch_packet
    written_count is_ready
afc_file_write_refused service n d c s s' p e k hs hp room open_handle refused bad = (
  record c {
    parent = some s';
    afc_packet = some (next_packet p Op.file_write 8 (length d));
    mutex = c.mutex + 1 - 1;
  },
  ground (
    arith,
    hs,
    hp,
    length-le_bytes 8 n,
    ap (λ k. next_packet p Op.file_write k (length d)) (length-le_bytes 8 n),
    refused,
    service_to_afc_error-success e,
  ),
)
