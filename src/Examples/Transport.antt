-- ===== src/Examples/Transport.antt =====
-- The theorems on connections and on the byte service, over the model of the calls below.
use libimobiledevice.Common.{ℕ, ◌≤◌, ◌≡◌, refl, List, [], ◌∷◌, ◌++◌, some, arith}
use libimobiledevice.Common.Bytes.{length}
use libimobiledevice.Common.Run.{ret}
use libimobiledevice.Idevice.{IdeviceError}
use libimobiledevice.Idevice.Send.{
  idevice_connection_send, usbmuxd_retry, internal_connection_send, send_loop, send_plain,
  send_over, connection_send,
}
use libimobiledevice.Idevice.Receive.{
  idevice_connection_receive_timeout, connection_receive_timeout, receive_over,
  internal_connection_receive_timeout,
}
use libimobiledevice.Idevice.Send.Complete.{idevice_connection_send_complete}
use libimobiledevice.Idevice.Receive.Bounds.{idevice_connection_receive_timeout-Takes}
use libimobiledevice.Service.{IsTransport, service_of}
use libimobiledevice.Service.Contract.{service-IsTransport}
use libimobiledevice.Examples.Net.{
  out_of, incoming_of, model, model-SendLaws, model-ReceiveLaws, usb_link,
}

abbrev five : List ℕ
five = 10 ∷ 20 ∷ 30 ∷ 40 ∷ 50 ∷ []

send_five :
    idevice_connection_send model 12 (some five) (usb_link (9 ∷ []) [])
    ≡ ret (IdeviceError.success, 5, usb_link (9 ∷ five) [])
unfolding idevice_connection_send connection_send send_over send_plain send_loop
    internal_connection_send usbmuxd_retry
send_five = refl

idevice_connection_send_complete_example : (5 ≡ length five) × (9 ∷ five ≡ (9 ∷ []) ++ five)
idevice_connection_send_complete_example =
    idevice_connection_send_complete model out_of model-SendLaws 12 five (usb_link (9 ∷ []) []) 5
      (usb_link (9 ∷ five) []) (omega arith) send_five

receive_two :
    idevice_connection_receive_timeout model 12 2 100 (usb_link [] five)
    ≡ ret (IdeviceError.success, 10 ∷ 20 ∷ [], usb_link [] (30 ∷ 40 ∷ 50 ∷ []))
unfolding idevice_connection_receive_timeout connection_receive_timeout receive_over
    internal_connection_receive_timeout
receive_two = refl

idevice_connection_receive_timeout-Takes_example :
    (2 ≤ 2) × (five ≡ (10 ∷ 20 ∷ []) ++ (30 ∷ 40 ∷ 50 ∷ []))
idevice_connection_receive_timeout-Takes_example =
    idevice_connection_receive_timeout-Takes model incoming_of model-ReceiveLaws 12 2 100
      (usb_link [] five) IdeviceError.success (10 ∷ 20 ∷ []) (usb_link [] (30 ∷ 40 ∷ 50 ∷ []))
      receive_two

service-IsTransport_example :
    IsTransport (service_of model 12) (λ s. out_of s.net) (λ s. incoming_of s.net)
service-IsTransport_example =
    service-IsTransport model out_of incoming_of model-SendLaws model-ReceiveLaws 12
