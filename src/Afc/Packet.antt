-- ===== src/Afc/Packet.antt =====
-- src/afc.h: AFCPacket, as the bytes of its fields in little-endian order.
pub mod RoundTrip
use libimobiledevice.Common.{ℕ, List, ◌∷◌, [], ◌++◌}
use libimobiledevice.Common.Bytes.{take, drop, le_bytes, from_le}

-- AFC_MAGIC, "CFA6LPAA".
abbrev pub afc_magic : List ℕ
afc_magic = 0x43 ∷ 0x46 ∷ 0x41 ∷ 0x36 ∷ 0x4c ∷ 0x50 ∷ 0x41 ∷ 0x41 ∷ []

pub record AfcPacket : Type 0 where
  pub magic : List ℕ
  pub entire_length : ℕ
  pub this_length : ℕ
  pub packet_num : ℕ
  pub operation : ℕ

-- sizeof(AFCPacket)
abbrev pub header_size : ℕ
header_size = 40

-- The header in memory, after AFCPacket_to_LE.
unfoldable pub afc_packet_to_le : AfcPacket → List ℕ
afc_packet_to_le p =
    p.magic
    ++ (le_bytes 8 p.entire_length
        ++ (le_bytes 8 p.this_length ++ (le_bytes 8 p.packet_num ++ le_bytes 8 p.operation)))

-- The header that 40 bytes in memory are, after AFCPacket_from_LE.
unfoldable pub afc_packet_from_le : List ℕ → AfcPacket
afc_packet_from_le bs = record {
  magic = take 8 bs;
  entire_length = from_le (take 8 (drop 8 bs));
  this_length = from_le (take 8 (drop 16 bs));
  packet_num = from_le (take 8 (drop 24 bs));
  operation = from_le (take 8 (drop 32 bs));
}
