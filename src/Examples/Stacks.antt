-- ===== src/Examples/Stacks.antt =====
-- The theorems on whole stacks, over the model of the calls below a connection.
use libimobiledevice.Common.{ℕ, ◌≡◌, refl, true, List, [], ◌++◌, some, arith}
use libimobiledevice.Common.Bytes.{le_bytes, be32_bytes}
use libimobiledevice.Common.Run.{ret}
use libimobiledevice.Idevice.Send.{
  idevice_connection_send, connection_send, send_over, send_plain, send_loop,
  internal_connection_send, usbmuxd_retry,
}
use libimobiledevice.Service.{
  Host, host_of, service_of, service_send, send_from, idevice_to_service_error,
}
use libimobiledevice.Afc.Error
use libimobiledevice.Afc.Error.{service_to_afc_error}
use libimobiledevice.Afc.Op
use libimobiledevice.Afc.Packet.{AfcPacket, afc_packet_to_le}
use libimobiledevice.Afc.Client.{
  Client, first_packet, next_packet, dispatch_payload, dispatch_with, afc_dispatch_packet,
}
use libimobiledevice.Afc.Client.Dispatch.{request_bytes}
use libimobiledevice.PlistService.{PlistServiceError, internal_plist_send, send_bytes, send_content}
use libimobiledevice.PlistService.Send.{framed, encoded}
use libimobiledevice.Stack.{dispatch_delivered}
use libimobiledevice.Examples.Net.{
  World, out_of, incoming_of, model, model-SendLaws, model-ReceiveLaws, usb_link,
}
use libimobiledevice.Examples.Replies.{client}
use libimobiledevice.Examples.Plists.{codec}

abbrev host : List ℕ → Host World
host out = host_of (usb_link out [])

abbrev tell_packet : AfcPacket
tell_packet = next_packet (record first_packet { packet_num = 4 }) Op.file_tell 8 0

abbrev told : Client (Host World)
told = record (client 4 (host (afc_packet_to_le tell_packet ++ le_bytes 8 5))) {
  afc_packet = some tell_packet;
}

tell_sent :
    afc_dispatch_packet (service_of model 30) Op.file_tell (le_bytes 8 5) [] (client 4 (host []))
    ≡ ret (Error.success, 48, told)
unfolding afc_dispatch_packet dispatch_with dispatch_payload next_packet afc_packet_to_le le_bytes
    service_to_afc_error service_send send_from idevice_to_service_error idevice_connection_send
    connection_send send_over send_plain send_loop internal_connection_send usbmuxd_retry
tell_sent = refl

dispatch_delivered_example :
    (s' : Host World) × (told.parent ≡ some s')
    × (out_of s'.net ≡ [] ++ request_bytes tell_packet (le_bytes 8 5) [])
unfolding le_bytes
dispatch_delivered_example =
    dispatch_delivered model out_of incoming_of model-SendLaws model-ReceiveLaws 30 Op.file_tell
      (le_bytes 8 5) [] (client 4 (host [])) (host []) (record first_packet { packet_num = 4 }) 48
      told refl refl refl (omega arith) tell_sent

plist_sent :
    internal_plist_send codec (service_of model 30) (some (some (host []))) (some 5) true
    ≡ ret (PlistServiceError.success, some (some (host (framed (encoded codec true 5)))))
unfolding internal_plist_send send_bytes send_content be32_bytes service_send send_from
    idevice_to_service_error idevice_connection_send connection_send send_over send_plain send_loop
    internal_connection_send usbmuxd_retry
plist_sent = refl
