-- ===== src/Afc/Packet/RoundTrip.antt =====
-- A header is read back as it was written.
use libimobiledevice.Common.{ℕ, ◌^◌, ◌+◌, ◌<◌, ◌≡◌, sym, ap, ◌∙◌, List, ◌++◌, append_assoc}
use libimobiledevice.Common.Bytes.{
  length, length-append, take, drop, take-append, drop-append, drop-drop, le_bytes, from_le,
  length-le_bytes, from_le-le_bytes,
}
use libimobiledevice.Afc.Packet.{AfcPacket, header_size, afc_packet_to_le, afc_packet_from_le}

-- Every field fits its place in the header.
pub record Fits (p : AfcPacket) : Type 0 where
  pub magic : length p.magic ≡ 8
  pub entire_length : p.entire_length < 2 ^ 64
  pub this_length : p.this_length < 2 ^ 64
  pub packet_num : p.packet_num < 2 ^ 64
  pub operation : p.operation < 2 ^ 64

pub length-afc_packet_to_le :
    (p : AfcPacket) → length p.magic ≡ 8 → length (afc_packet_to_le p) ≡ header_size
unfolding afc_packet_to_le
length-afc_packet_to_le p h = simp (length-append, length-le_bytes, h)

-- A field of eight bytes at the front is read back.
field : (v : ℕ) (rest : List ℕ) → v < 2 ^ 64 → from_le (take 8 (le_bytes 8 v ++ rest)) ≡ v
field v rest h =
    rw (take-append (le_bytes 8 v) rest 8 (sym (length-le_bytes 8 v))) (from_le-le_bytes 8 v h)

read :
    {xs : List ℕ} (v : ℕ) (rest : List ℕ)
    → xs ≡ le_bytes 8 v ++ rest
    → v < 2 ^ 64
    → from_le (take 8 xs) ≡ v
read v rest e h = ap (λ xs. from_le (take 8 xs)) e ∙ field v rest h

skip :
    (k : ℕ) (xs front rest : List ℕ)
    → length front ≡ 8
    → drop k xs ≡ front ++ rest
    → drop (k + 8) xs ≡ rest
skip k xs front rest h e = sym (drop-drop k 8 xs) ∙ ap (drop 8) e ∙ drop-append front rest 8 (sym h)

-- A header whose magic has eight bytes and whose numbers fit 64 bits is read back from its bytes,
-- whatever follows them.
pub afc_packet_from_le-to_le :
    (p : AfcPacket) (rest : List ℕ) → Fits p → afc_packet_from_le (afc_packet_to_le p ++ rest) ≡ p
unfolding afc_packet_from_le afc_packet_to_le
afc_packet_from_le-to_le p rest f = λ i. record {
  magic = (ap (take 8) e0 ∙ take-append p.magic t1 8 (sym f.magic)) i;
  entire_length = (read p.entire_length t2 e1 f.entire_length) i;
  this_length = (read p.this_length t3 e2 f.this_length) i;
  packet_num = (read p.packet_num t4 e3 f.packet_num) i;
  operation = (read p.operation rest e4 f.operation) i;
}
  where
    t4 : List ℕ
    t4 = le_bytes 8 p.operation ++ rest

    t3 : List ℕ
    t3 = le_bytes 8 p.packet_num ++ t4

    t2 : List ℕ
    t2 = le_bytes 8 p.this_length ++ t3

    t1 : List ℕ
    t1 = le_bytes 8 p.entire_length ++ t2

    whole : List ℕ
    whole = afc_packet_to_le p ++ rest

    e0 : whole ≡ p.magic ++ t1
    e0 = simp append_assoc

    e1 : drop 8 whole ≡ t1
    e1 = ap (drop 8) e0 ∙ drop-append p.magic t1 8 (sym f.magic)

    e2 : drop 16 whole ≡ t2
    e2 = skip 8 whole (le_bytes 8 p.entire_length) t2 (length-le_bytes 8 _) e1

    e3 : drop 24 whole ≡ t3
    e3 = skip 16 whole (le_bytes 8 p.this_length) t3 (length-le_bytes 8 _) e2

    e4 : drop 32 whole ≡ t4
    e4 = skip 24 whole (le_bytes 8 p.packet_num) t4 (length-le_bytes 8 _) e3
