-- ===== src/Afc/Client/Buffer.antt =====
-- The packet buffer is large enough for what is stored in it, unless an allocation has failed.
use libimobiledevice.Common.{ℕ, ◌+◌, ◌^◌, ◌≤◌, ◌<◌, ◌≡◌, Bool, true, Option, some, arith}
use libimobiledevice.Afc.Client.{
  Client, IsSound, clear_bit3, afc_check_packet_buffer, afc_client_new_with_service_client,
}

clear_bit3_bounds : (n : ℕ) → (n ≤ clear_bit3 n + 8) × (clear_bit3 n ≤ n)
unfolding clear_bit3
clear_bit3_bounds n = omega arith

-- A client that afc_client_new_with_service_client makes has a buffer as large as it believes.
pub new-IsSound :
    {S : Type 0} (grants : ℕ → Bool) (s : Option S) (c : Client S) (e : ℕ)
    → afc_client_new_with_service_client grants s ≡ (e, some c)
    → IsSound c
unfolding afc_client_new_with_service_client
new-IsSound grants Option.none c e h = ground arith
new-IsSound grants (some s) c e h = ground arith

module _ {S : Type 0} (grants : ℕ → Bool) (n : ℕ) (c c' : Client S) where
  -- When _afc_check_packet_buffer succeeds on a sound client, for less than 2 ^ 32 - 8 bytes, the
  -- client is still sound, keeps its packet, its parent and its lock, and has room for the bytes.
  pub afc_check_packet_buffer-IsSound :
      n + 8 < 2 ^ 32
      → IsSound c
      → afc_check_packet_buffer grants n c ≡ (true, c')
      → IsSound c'
        × (n ≤ c'.capacity)
        × (c'.afc_packet ≡ c.afc_packet)
        × (c'.parent ≡ c.parent)
        × (c'.mutex ≡ c.mutex)
  unfolding afc_check_packet_buffer
  afc_check_packet_buffer-IsSound small v h = ground (arith, clear_bit3_bounds n)
