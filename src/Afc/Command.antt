-- ===== src/Afc/Command.antt =====
-- src/afc.c: what the functions that make a request have in common.
pub mod Lock
use libimobiledevice.Common.{
  ℕ, suc, ◌+◌, Bool, true, false, not, ◌&&◌, List, [], ◌∷◌, ◌++◌, Option, none, some, ◌==◌,
  if◌then◌else◌,
}
use libimobiledevice.Common.Bytes.{length}
use libimobiledevice.Common.Run.{Run, ret, ◌>>=◌}
use libimobiledevice.Service.{Service}
use libimobiledevice.Afc.Error
use libimobiledevice.Afc.Client.{
  Client, afc_lock, afc_unlock, afc_check_packet_buffer, store_data, afc_dispatch_packet,
}
use libimobiledevice.Afc.Receive.{afc_receive_data}

-- A C string with its terminator.
unfoldable pub c_string : List ℕ → List ℕ
c_string s = s ++ (0 ∷ [])

abbrev pub is_there {ℓ} : {A : Type ℓ} → Option A → Bool
is_there none = false
is_there (some a) = true

module _ {S : Type 0} where
  -- `client->afc_packet && client->parent`
  unfoldable pub is_ready : Client S → Bool
  is_ready c = is_there c.afc_packet && is_there c.parent

  -- The answer of a function that takes a pointer to a client, and hands no data on.
  abbrev pub code_only : Run (ℕ × Option (List ℕ) × Client S) → Run (ℕ × Option (Client S))
  code_only m = m >>= λ r. ret (r.0, some r.2)

module _ {S : Type 0} (service : Service S) where
  -- From afc_dispatch_packet to the end, with the lock held: a request that cannot be sent gives
  -- the code `unsent`, and the code of the reply goes through `final`.
  unfoldable pub exchange :
      ℕ → List ℕ → ℕ → (ℕ → ℕ) → Client S → Run (ℕ × Option (List ℕ) × Client S)
  exchange operation d unsent final c = afc_dispatch_packet service operation d [] c >>= λ r.
      if not (r.0 == Error.success)
      then ret (unsent, none, afc_unlock r.2)
      else afc_receive_data service r.2 >>= λ q. ret (final q.0, q.1, afc_unlock q.2)

  -- The whole body for data of any length: lock, make room, store, exchange.
  unfoldable pub request :
      (ℕ → Bool) → ℕ → List ℕ → ℕ → (ℕ → ℕ) → Client S → Run (ℕ × Option (List ℕ) × Client S)
  request grants operation d unsent final c =
      let r = afc_check_packet_buffer grants (length d) (afc_lock c) in
      if r.0
      then (store_data d r.1 >>= λ c'. exchange operation d unsent final c')
      else ret (Error.no_mem, none, afc_unlock r.1)

  -- The body for a fixed structure of at most 24 bytes, for which no room is made.
  unfoldable pub fixed_request : ℕ → List ℕ → ℕ → Client S → Run (ℕ × Option (List ℕ) × Client S)
  fixed_request operation d unsent c =
      store_data d (afc_lock c) >>= λ c'. exchange operation d unsent (λ e. e) c'
