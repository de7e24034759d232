-- ===== src/Examples/Receiving.antt =====
-- The theorems on the replies to AFC requests.
use libimobiledevice.Common.{ℕ, ◌≡◌, refl, List, [], ◌∷◌, ◌++◌}
use libimobiledevice.Common.Run.{ret}
use libimobiledevice.Afc.Op
use libimobiledevice.Afc.Packet.{afc_packet_to_le}
use libimobiledevice.Afc.Client.{first_packet}
use libimobiledevice.Afc.Receive.{reply_result, afc_receive_data}
use libimobiledevice.Afc.Receive.RoundTrip.{afc_receive_data-reply}
use libimobiledevice.Examples.Wire.{Wire, incoming_of, stream, stream-Reliable}
use libimobiledevice.Examples.Replies.{header, client, wire, zeros, status-IsReply}

-- The reply, and two bytes of what comes after it.
abbrev after_reply : List ℕ
after_reply = 7 ∷ 7 ∷ []

abbrev reply_wire : Wire
reply_wire = wire [] (afc_packet_to_le (header 1 Op.status 8 8) ++ (zeros 8 ++ ([] ++ after_reply)))

afc_receive_data-reply_example :
    let q = reply_result Op.status (zeros 8) in
    (s' : Wire) × (afc_receive_data stream (client 1 reply_wire) ≡ ret (q.0, q.1, client 1 s'))
    × (s'.incoming ≡ after_reply)
afc_receive_data-reply_example =
    afc_receive_data-reply stream incoming_of stream-Reliable (header 1 Op.status 8 8)
      (record first_packet { packet_num = 1 }) (zeros 8) [] after_reply reply_wire
      (client 1 reply_wire) refl refl status-IsReply refl

-- A header, and nothing after it.
abbrev header_wire : Wire
header_wire = wire [] (afc_packet_to_le (header 1 Op.status 8 8))

-- A header that promises 12 bytes for the packet out of 8 in all, and 12 bytes.
abbrev long_wire : Wire
long_wire = wire [] (afc_packet_to_le (header 1 Op.status 12 8) ++ zeros 12)
