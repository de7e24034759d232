-- ===== src/Stack.antt =====
-- The protocols over a real connection: what their requests put on the wire below the connection.
use libimobiledevice.Common.{ℕ, ◌+◌, ◌^◌, ◌<◌, ◌≡◌, Bool, List, ◌++◌, some}
use libimobiledevice.Common.Bytes.{length}
use libimobiledevice.Common.Run.{ret}
use libimobiledevice.Idevice.{Net}
use libimobiledevice.Idevice.Send.Complete.{SendLaws}
use libimobiledevice.Idevice.Receive.Bounds.{ReceiveLaws}
use libimobiledevice.Service.{Host, service_of}
use libimobiledevice.Service.Contract.{service-IsTransport}
use libimobiledevice.Afc.Error
use libimobiledevice.Afc.Packet.{AfcPacket, header_size}
use libimobiledevice.Afc.Client.{Client, next_packet, afc_dispatch_packet}
use libimobiledevice.Afc.Client.Dispatch.{request_bytes, afc_dispatch_packet_complete}
use libimobiledevice.PlistService.{PlistServiceError, Codec, PlistClient, internal_plist_send}
use libimobiledevice.PlistService.Send.{framed, encoded, internal_plist_send_complete}

module _ {W : Type 0} (net : Net W) (log pending : W → List ℕ) (sends : SendLaws net log)
    (receives : ReceiveLaws net pending) (rounds : ℕ) where
  -- On a connection over USB, a socket or SSL, a success of afc_dispatch_packet means that the
  -- calls below the connection have taken the header, the data and the payload of the request, and
  -- nothing else. The client has a service client and a packet, and the request is shorter than
  -- 2 ^ 32; of the calls below it is assumed that they take and hand over what they say.
  pub dispatch_delivered :
      (op : ℕ) (d payload : List ℕ) (c : Client (Host W)) (s : Host W) (p : AfcPacket) (n : ℕ)
      (c' : Client (Host W))
      → c.parent ≡ some s
      → c.afc_packet ≡ some p
      → length p.magic ≡ 8
      → header_size + length d + length payload < 2 ^ 32
      → afc_dispatch_packet (service_of net rounds) op d payload c ≡ ret (Error.success, n, c')
      → let q = next_packet p op (length d) (length payload) in
        (s' : Host W) × (c'.parent ≡ some s')
        × (log s'.net ≡ log s.net ++ request_bytes q d payload)
  dispatch_delivered op d payload c s p n c' hs hp magic small h =
      let (s', there, count, out) =
        afc_dispatch_packet_complete (service_of net rounds) (λ s. log s.net) (λ s. pending s.net)
          (service-IsTransport net log pending sends receives rounds) op d payload c s p n c' hs hp
          magic small h in
      (s', there, out)

  -- On a connection over USB, a socket or SSL, a success of internal_plist_send means that the
  -- calls below the connection have taken the length and the encoding of the property list, and
  -- nothing else. The encoding is shorter than 2 ^ 32; of the calls below it is assumed that they
  -- take and hand over what they say.
  plist_send_delivered :
      {P : Type 0} (codec : Codec P) (s : Host W) (p : P) (binary : Bool)
      (c' : PlistClient (Host W))
      → length (encoded codec binary p) < 2 ^ 32
      → internal_plist_send codec (service_of net rounds) (some (some s)) (some p) binary
        ≡ ret (PlistServiceError.success, c')
      → (s' : Host W) × (c' ≡ some (some s'))
        × (log s'.net ≡ log s.net ++ framed (encoded codec binary p))
  plist_send_delivered codec s p binary c' small h =
      internal_plist_send_complete codec (service_of net rounds) (λ s. log s.net)
        (λ s. pending s.net) (service-IsTransport net log pending sends receives rounds) s p binary
        c' small h
