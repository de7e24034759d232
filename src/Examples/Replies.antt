-- ===== src/Examples/Replies.antt =====
-- AFC clients and replies for the theorems on AFC.
use libimobiledevice.Common.{
  ℕ, zero, suc, ◌+◌, ◌≤◌, ◌≡◌, refl, sym, true, List, [], ◌∷◌, some, arith, ◌==◌, if◌then◌else◌,
}
use libimobiledevice.Common.Bytes.{length, le_bytes, from_le}
use libimobiledevice.Common.Run.{ret}
use libimobiledevice.Service.{ServiceError, Service}
use libimobiledevice.Afc.Op
use libimobiledevice.Afc.Packet.{
  AfcPacket, afc_magic, header_size, afc_packet_to_le, afc_packet_from_le,
}
use libimobiledevice.Afc.Client.{Client, IsSound, first_packet}
use libimobiledevice.Afc.Receive.{content_length}
use libimobiledevice.Afc.Receive.RoundTrip.{IsReply}
use libimobiledevice.Afc.Receive.Faults.{Honest}
use libimobiledevice.Examples.Wire.{Wire}

-- The header of a reply to the packet numbered `num`.
abbrev pub header : ℕ → ℕ → ℕ → ℕ → AfcPacket
header num operation this_len entire = record {
  magic = afc_magic;
  entire_length = header_size + entire;
  this_length = header_size + this_len;
  packet_num = num;
  operation = operation;
}

-- A client whose last packet was numbered `num`.
abbrev pub client : {S : Type 0} → ℕ → S → Client S
client num s = record {
  parent = some s;
  afc_packet = some (record first_packet { packet_num = num });
  packet_extra = 1024;
  capacity = 1024;
  mutex = 0;
  free_parent = true;
}

pub client-IsSound : {S : Type 0} (num : ℕ) (s : S) → IsSound (client num s)
client-IsSound num s = record { believed = omega arith; started = omega arith }

abbrev pub wire : List ℕ → List ℕ → Wire
wire out incoming = record { out = out; incoming = incoming }

abbrev pub zeros : ℕ → List ℕ
zeros zero = []
zeros (suc n) = 0 ∷ zeros n

length-zeros : (n : ℕ) → length (zeros n) ≡ n
length-zeros zero = refl
length-zeros (suc n) = omega (arith, length-zeros n)

pub status-IsReply :
    IsReply (header 1 Op.status 8 8) (record first_packet { packet_num = 1 }) 8 (zeros 8)
status-IsReply = record {
  fits = record {
    magic = refl;
    entire_length = omega arith;
    this_length = omega arith;
    packet_num = omega arith;
    operation = omega arith;
  };
  magic = refl;
  packet_num = refl;
  this_length = refl;
  entire_length = refl;
  part = omega arith;
  some_content = omega arith;
  small = omega arith;
}

pub data-IsReply :
    (p : AfcPacket)
    → p.packet_num ≡ 2
    → IsReply (header 2 Op.op_data 4 6) p 4 (1 ∷ 2 ∷ 3 ∷ 4 ∷ 5 ∷ 6 ∷ [])
data-IsReply p h = record {
  fits = record {
    magic = refl;
    entire_length = omega arith;
    this_length = omega arith;
    packet_num = omega arith;
    operation = omega arith;
  };
  magic = refl;
  packet_num = sym h;
  this_length = refl;
  entire_length = refl;
  part = omega arith;
  some_content = omega arith;
  small = omega arith;
}

-- A success as the reply to packet 1.
abbrev canned_bytes : ℕ → List ℕ
canned_bytes len =
    if len == header_size then afc_packet_to_le (header 1 Op.status 8 8) else zeros len

-- Takes everything, and gives that reply whenever a header is read, zeros otherwise.
abbrev pub canned : {S : Type 0} → Service S
canned = record {
  send = λ d s. ret (ServiceError.success, length d, s);
  receive_with_timeout = λ len millis s. ret (ServiceError.success, canned_bytes len, s);
}

canned_bounded : (len : ℕ) → length (canned_bytes len) ≤ len
unfolding afc_packet_to_le le_bytes
canned_bounded len = ground (arith, length-zeros len)

canned_consistent :
    content_length (afc_packet_from_le (canned_bytes header_size)).this_length
    ≤ content_length (afc_packet_from_le (canned_bytes header_size)).entire_length
unfolding content_length afc_packet_from_le from_le afc_packet_to_le le_bytes
canned_consistent = omega arith

pub canned-Honest : {S : Type 0} → Honest (canned {S = S}) 1
canned-Honest = record {
  returns = λ len millis s. tt;
  bounded = λ len millis s e bs s' h. ground (arith, canned_bounded len);
  no_error = λ len millis s e bs s' h. ground arith;
  consistent = λ s bs s' h good. ground (arith, canned_consistent);
}
