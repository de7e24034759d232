-- ===== src/Examples/Files.antt =====
-- The theorems on AFC requests and on open files.
use libimobiledevice.Common.{ℕ, ◌+◌, ◌≡◌, refl, true, List, [], ◌∷◌, ◌++◌, some, arith}
use libimobiledevice.Common.Bytes.{take, le_bytes, from_le}
use libimobiledevice.Common.Run.{ret}
use libimobiledevice.Afc.Error
use libimobiledevice.Afc.Error.{service_to_afc_error}
use libimobiledevice.Afc.Op
use libimobiledevice.Afc.Packet.{AfcPacket, afc_packet_to_le, afc_packet_from_le}
use libimobiledevice.Afc.Client.{
  Client, first_packet, next_packet, afc_lock, afc_unlock, store_data, dispatch_payload,
  dispatch_with, afc_dispatch_packet,
}
use libimobiledevice.Afc.Client.Dispatch.{request_bytes, afc_dispatch_packet_complete}
use libimobiledevice.Afc.Receive.{
  content_length, param1, reply_result, header_error, is_empty, receive_loop, receive_tail,
  receive_contents, receive_checked, receive_with, afc_receive_data,
}
use libimobiledevice.Afc.Command.{is_ready, exchange, fixed_request}
use libimobiledevice.Afc.File.{read_reply, afc_file_read, afc_file_close, handle_request}
use libimobiledevice.Afc.File.Read.{afc_file_read-reply}
use libimobiledevice.Afc.Command.Lock.{Balanced}
use libimobiledevice.Afc.Session.{Call, perform, Reach}
use libimobiledevice.Afc.Session.Lock.{Reach-Balanced}
use libimobiledevice.Examples.Wire.{
  Wire, out_of, incoming_of, stream, stream-IsTransport, stream-Reliable,
}
use libimobiledevice.Examples.Replies.{header, client, wire, zeros, data-IsReply, canned}

abbrev bytes : List ℕ
bytes = 1 ∷ 2 ∷ 3 ∷ []

-- The packet after the first, and the client after it.
abbrev packet_after : ℕ → ℕ → ℕ → ℕ → AfcPacket
packet_after num op d payload = next_packet (record first_packet { packet_num = num }) op d payload

abbrev client_after : ℕ → ℕ → ℕ → ℕ → Wire → Client Wire
client_after num op d payload w = record (client num w) {
  afc_packet = some (packet_after num op d payload);
}

abbrev write_wire : List ℕ → Wire
write_wire incoming =
    wire (afc_packet_to_le (packet_after 0 Op.file_write 8 3) ++ le_bytes 8 5 ++ bytes) incoming

dispatched :
    afc_dispatch_packet stream Op.file_write (le_bytes 8 5) bytes (client 0 (wire [] []))
    ≡ ret (Error.success, 51, client_after 0 Op.file_write 8 3 (write_wire []))
unfolding afc_dispatch_packet dispatch_with dispatch_payload service_to_afc_error afc_packet_to_le
    next_packet le_bytes
dispatched = refl

afc_dispatch_packet_complete_example :
    (s' : Wire) × (some (write_wire []) ≡ some s')
    × (51 ≡ 40 + 8 + 3)
    × (s'.out ≡ [] ++ request_bytes (packet_after 0 Op.file_write 8 3) (le_bytes 8 5) bytes)
unfolding le_bytes
afc_dispatch_packet_complete_example =
    afc_dispatch_packet_complete stream out_of incoming_of stream-IsTransport Op.file_write
      (le_bytes 8 5) bytes (client 0 (wire [] [])) (wire [] [])
      (record first_packet { packet_num = 0 }) 51 (client_after 0 Op.file_write 8 3 (write_wire []))
      refl refl refl (omega arith) dispatched

-- A success as the reply to packet 1.
abbrev success_reply : List ℕ
success_reply = afc_packet_to_le (header 1 Op.status 8 8) ++ zeros 8

-- Six bytes as the reply to packet 2, four of them in the packet, and one byte after it.
abbrev six : List ℕ
six = 1 ∷ 2 ∷ 3 ∷ 4 ∷ 5 ∷ 6 ∷ []

abbrev read_wire : List ℕ → Wire
read_wire out = wire out (
    afc_packet_to_le (header 2 Op.op_data 4 6)
    ++ ((1 ∷ 2 ∷ 3 ∷ 4 ∷ []) ++ ((5 ∷ 6 ∷ []) ++ (9 ∷ []))))

abbrev read_request : List ℕ
read_request = afc_packet_to_le (packet_after 1 Op.file_read 16 0) ++ (le_bytes 8 5 ++ le_bytes 8 4)

abbrev asking : Client Wire
asking = record (client_after 1 Op.file_read 16 0 (read_wire read_request)) { mutex = 1 }

asked :
    afc_dispatch_packet stream Op.file_read
      (le_bytes 8 5 ++ le_bytes 8 4)
      []
      (record (client 1 (read_wire [])) { mutex = 1 })
    ≡ ret (Error.success, 56, asking)
unfolding afc_dispatch_packet dispatch_with dispatch_payload service_to_afc_error afc_packet_to_le
    next_packet le_bytes
asked = refl

client_ready : is_ready (client 1 (read_wire [])) ≡ true
unfolding is_ready
client_ready = refl

two : (packet_after 1 Op.file_read 16 0).packet_num ≡ 2
unfolding next_packet
two = refl

afc_file_read-reply_example :
    (s' : Wire) × (afc_file_read stream (some (client 1 (read_wire []))) 5 4
      ≡ ret (
        Error.success,
        some (take 4 six),
        some (afc_unlock (record asking { parent = some s' })),
      ))
    × (s'.incoming ≡ 9 ∷ [])
afc_file_read-reply_example =
    afc_file_read-reply stream incoming_of stream-Reliable 5 4 56 (client 1 (read_wire [])) asking
      (header 2 Op.op_data 4 6) (packet_after 1 Op.file_read 16 0) (1 ∷ 2 ∷ 3 ∷ 4 ∷ []) (5 ∷ 6 ∷ [])
      (9 ∷ []) (read_wire read_request) client_ready (omega arith) (omega arith) asked refl refl
      (data-IsReply (packet_after 1 Op.file_read 16 0) two) refl refl

-- The same read, over a connection that answers every packet numbered 1.
abbrev read_zeros : Client Wire
read_zeros = client_after 0 Op.file_read 16 0 (wire [] [])

zeros_read :
    afc_file_read canned (some (client 0 (wire [] []))) 5 4
    ≡ ret (Error.success, some (zeros 4), some read_zeros)
unfolding afc_file_read is_ready fixed_request exchange read_reply store_data afc_lock afc_unlock
    afc_dispatch_packet dispatch_with dispatch_payload service_to_afc_error afc_packet_to_le
    next_packet le_bytes afc_receive_data receive_with receive_checked header_error is_empty
    content_length receive_contents receive_tail receive_loop reply_result param1 afc_packet_from_le
    from_le
zeros_read = refl

closed :
    perform canned (λ n. true) (Call.file_close 5) (client 0 (wire [] []))
    ≡ ret (Error.success, some (client_after 0 Op.file_close 8 0 (wire [] [])))
unfolding perform afc_file_close handle_request fixed_request exchange store_data afc_lock
    afc_unlock afc_dispatch_packet dispatch_with dispatch_payload service_to_afc_error
    afc_packet_to_le next_packet le_bytes afc_receive_data receive_with receive_checked header_error
    is_empty content_length receive_contents receive_tail receive_loop reply_result param1
    afc_packet_from_le from_le
closed = refl

Reach-Balanced_example :
    Balanced (client 0 (wire [] [])) (client_after 0 Op.file_close 8 0 (wire [] []))
Reach-Balanced_example =
    Reach-Balanced {service = canned} {c = client 0 (wire [] [])}
      {c' = client_after 0 Op.file_close 8 0 (wire [] [])}
      (Reach.next (λ n. true) (Call.file_close 5) Error.success Reach.here closed)
