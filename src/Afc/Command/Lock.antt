-- ===== src/Afc/Command/Lock.antt =====
-- A request releases the lock that it takes, on every way out.
use libimobiledevice.Common.{
  ℕ, ◌-◌, ◌≡◌, Bool, List, [], Option, arith, not, ◌==◌, inl, inr, Bool-cases,
}
use libimobiledevice.Common.Run.{ret, >>=-eq-ret}
use libimobiledevice.Common.Bytes.{length}
use libimobiledevice.Service.{Service}
use libimobiledevice.Afc.Error
use libimobiledevice.Afc.Client.{
  Client, afc_lock, afc_unlock, afc_check_packet_buffer, store_data, afc_dispatch_packet,
}
use libimobiledevice.Afc.Client.Dispatch.{afc_dispatch_packet-Same}
use libimobiledevice.Afc.Receive.{afc_receive_data}
use libimobiledevice.Afc.Receive.Keeps.{afc_receive_data-Keeps}
use libimobiledevice.Afc.Command.{exchange, request, fixed_request}

-- The lock is held as often as before.
abbrev pub Balanced : {S : Type 0} → Client S → Client S → Type 0
Balanced c c' = c'.mutex ≡ c.mutex

-- The lock is released once, and the buffer is the same.
pub record Released {S : Type 0} (c c' : Client S) : Type 0 where
  pub packet_extra : c'.packet_extra ≡ c.packet_extra
  pub capacity : c'.capacity ≡ c.capacity
  pub mutex : c'.mutex ≡ c.mutex - 1

module _ {S : Type 0} (service : Service S) where
  pub exchange-Released :
      (operation : ℕ) (d : List ℕ) (unsent : ℕ) (final : ℕ → ℕ) (c : Client S)
      (r : ℕ × Option (List ℕ) × Client S)
      → exchange service operation d unsent final c ≡ ret r
      → Released c r.2
  unfolding exchange afc_unlock
  exchange-Released operation d unsent final c r h =
      let (q, ran, rest) = >>=-eq-ret (afc_dispatch_packet service operation d [] c) _ h in
      let same = afc_dispatch_packet-Same service operation d [] c q.0 q.1 q.2 ran in
      elim (Bool-cases (not (q.0 == Error.success))) [
        | inl failed ↦ ground (arith, rest, failed, same)
        | inr sent ↦
            let (a, ran2, rest2) =
              >>=-eq-ret (afc_receive_data service q.2) (λ a. ret (final a.0, a.1, afc_unlock a.2))
                {b = r} (rw sent at rest) in
            ground (arith, rest2, same, afc_receive_data-Keeps service q.2 a ran2)
      ]

  pub request-Balanced :
      (grants : ℕ → Bool) (operation : ℕ) (d : List ℕ) (unsent : ℕ) (final : ℕ → ℕ) (c : Client S)
      (r : ℕ × Option (List ℕ) × Client S)
      → request service grants operation d unsent final c ≡ ret r
      → Balanced c r.2
  unfolding request afc_lock afc_unlock store_data afc_check_packet_buffer
  request-Balanced grants operation d unsent final c r h =
      let room = afc_check_packet_buffer grants (length d) (afc_lock c) in
      ground (arith, exchange-Released operation d unsent final room.1 r)

  pub fixed_request-Balanced :
      (operation : ℕ) (d : List ℕ) (unsent : ℕ) (c : Client S) (r : ℕ × Option (List ℕ) × Client S)
      → fixed_request service operation d unsent c ≡ ret r
      → Balanced c r.2
  unfolding fixed_request afc_lock store_data
  fixed_request-Balanced operation d unsent c r h =
      ground (arith, exchange-Released operation d unsent (λ e. e) (afc_lock c) r)
