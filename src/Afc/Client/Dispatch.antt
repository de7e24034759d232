-- ===== src/Afc/Client/Dispatch.antt =====
-- afc_dispatch_packet: what a success puts on the wire, and what every call leaves alone.
use libimobiledevice.Common.{
  ℕ, ◌+◌, ◌^◌, ◌<◌, ◌≡◌, refl, sym, ap, ◌∙◌, List, [], ◌∷◌, ◌++◌, Option, none, some, append-nil,
  append_assoc, arith,
}
use libimobiledevice.Common.Bytes.{length, length-append}
use libimobiledevice.Common.Run.{ret, >>=-eq-ret, Ends, Ends->>=}
use libimobiledevice.Service.{ServiceError, Service, IsTransport, Returning}
use libimobiledevice.Afc.Error
use libimobiledevice.Afc.Error.{service_to_afc_error}
use libimobiledevice.Afc.Packet.{AfcPacket, header_size, afc_packet_to_le}
use libimobiledevice.Afc.Packet.RoundTrip.{length-afc_packet_to_le}
use libimobiledevice.Afc.Client.{
  Client, next_packet, dispatch_payload, dispatch_with, afc_dispatch_packet,
}

pub service_to_afc_error-success :
    (e : ServiceError) → service_to_afc_error e ≡ Error.success → e ≡ ServiceError.success
unfolding service_to_afc_error
service_to_afc_error-success ServiceError.success h = refl
service_to_afc_error-success _ h = ground arith

-- What a call leaves alone: the sizes of the buffer, the lock, and whose the service client is.
pub record Same {S : Type 0} (c c' : Client S) : Type 0 where
  pub packet_extra : c'.packet_extra ≡ c.packet_extra
  pub capacity : c'.capacity ≡ c.capacity
  pub mutex : c'.mutex ≡ c.mutex
  pub free_parent : c'.free_parent ≡ c.free_parent

-- The whole of a request: header, data and payload.
unfoldable pub request_bytes : AfcPacket → List ℕ → List ℕ → List ℕ
request_bytes q d payload = afc_packet_to_le q ++ (d ++ payload)

module _ {S : Type 0} (service : Service S) where
  dispatch_payload-Same :
      (payload : List ℕ) (sent : ℕ) (s : S) (c : Client S) (e n : ℕ) (c' : Client S)
      → dispatch_payload service payload sent s c ≡ ret (e, n, c')
      → Same c c' × (c'.afc_packet ≡ c.afc_packet)
  unfolding dispatch_payload
  dispatch_payload-Same [] sent s c e n c' h = ground arith
  dispatch_payload-Same (b ∷ bs) sent s c e n c' h =
      let (r, ran, rest) = >>=-eq-ret (service.send (b ∷ bs) s) _ h in ground (arith, rest)

  dispatch_with-Same :
      (s : Option S) (p : Option AfcPacket) (op : ℕ) (d payload : List ℕ) (c : Client S) (e n : ℕ)
      (c' : Client S)
      → dispatch_with service s p op d payload c ≡ ret (e, n, c')
      → Same c c'
  unfolding dispatch_with
  dispatch_with-Same none p op d payload c e n c' h = ground arith
  dispatch_with-Same (some s) none op d payload c e n c' h = ground arith
  dispatch_with-Same (some s) (some p) op d payload c e n c' h =
      let q = next_packet p op (length d) (length payload) in
      let (r, ran, rest) = >>=-eq-ret (service.send (afc_packet_to_le q ++ d) s) _ h in
      let c1 = record c { parent = some r.2; afc_packet = some q } in
      ground (arith, rest, dispatch_payload-Same payload r.1 r.2 c1 e n c')

  pub afc_dispatch_packet-Same :
      (op : ℕ) (d payload : List ℕ) (c : Client S) (e n : ℕ) (c' : Client S)
      → afc_dispatch_packet service op d payload c ≡ ret (e, n, c')
      → Same c c'
  unfolding afc_dispatch_packet
  afc_dispatch_packet-Same op d payload c e n c' h =
      dispatch_with-Same c.parent c.afc_packet op d payload c e n c' h

  -- With enough room in the contract's bound, a request is sent or refused: the call returns.
  module _ (cap : ℕ) (returning : Returning service cap) where
    dispatch_payload-Ends :
        (payload : List ℕ) (sent : ℕ) (s : S) (c : Client S)
        → length payload < cap
        → Ends (dispatch_payload service payload sent s c)
    unfolding dispatch_payload
    dispatch_payload-Ends [] sent s c h = tt
    dispatch_payload-Ends (b ∷ bs) sent s c h =
        Ends->>= _ _ (returning.send_ends (b ∷ bs) s h) λ r e. ground arith

pub length-header :
    (p : AfcPacket) (op d payload : ℕ)
    → length p.magic ≡ 8
    → length (afc_packet_to_le (next_packet p op d payload)) ≡ header_size
unfolding next_packet
length-header p op d payload h = length-afc_packet_to_le (next_packet p op d payload) h

whole_log :
    {S : Type 0} (log : S → List ℕ) (s s1 s2 : S) (header d payload : List ℕ)
    → log s1 ≡ log s ++ (header ++ d)
    → log s2 ≡ log s1 ++ payload
    → log s2 ≡ log s ++ (header ++ (d ++ payload))
whole_log log s s1 s2 header d payload h k =
    k
    ∙ ap (λ t. t ++ payload) h
    ∙ append_assoc (log s) (header ++ d) payload
    ∙ ap (◌++◌ (log s)) (append_assoc header d payload)

module _ {S : Type 0} (service : Service S) (log pending : S → List ℕ)
    (contract : IsTransport service log pending) where
  dispatch_payload_complete :
      (payload : List ℕ) (sent : ℕ) (s : S) (c : Client S) (n : ℕ) (c' : Client S)
      → c.parent ≡ some s
      → length payload < 2 ^ 32
      → dispatch_payload service payload sent s c ≡ ret (Error.success, n, c')
      → (s' : S) × (c'.parent ≡ some s') × (n ≡ sent + length payload) × (log s' ≡ log s ++ payload)
  unfolding dispatch_payload
  dispatch_payload_complete [] sent s c n c' p small h =
      (s, ground arith, ground arith, sym (append-nil (log s)))
  dispatch_payload_complete (b ∷ bs) sent s c n c' p small h =
      let (r, ran, rest) = >>=-eq-ret (service.send (b ∷ bs) s) _ h in
      (
        r.2,
        ground (arith, rest),
        ground (
          arith,
          rest,
          service_to_afc_error-success r.0,
          contract.send_complete (b ∷ bs) s r.1 r.2 small,
        ),
        ground (
          arith,
          rest,
          service_to_afc_error-success r.0,
          contract.send_complete (b ∷ bs) s r.1 r.2 small,
        ),
      )

  -- A request is fully out when afc_dispatch_packet returns success, on a client that has a
  -- service client and a packet: what left for the device is the header, then the data, then the
  -- payload, and nothing else. The header is the last packet's with the next number (modulo
  -- 2 ^ 64), the operation, and the lengths of what follows; the count is that of all the bytes.
  -- It is assumed that the service keeps its contract, and that the request is shorter than 2 ^ 32.
  pub afc_dispatch_packet_complete :
      (op : ℕ) (d payload : List ℕ) (c : Client S) (s : S) (p : AfcPacket) (n : ℕ) (c' : Client S)
      → c.parent ≡ some s
      → c.afc_packet ≡ some p
      → length p.magic ≡ 8
      → header_size + length d + length payload < 2 ^ 32
      → afc_dispatch_packet service op d payload c ≡ ret (Error.success, n, c')
      → let q = next_packet p op (length d) (length payload) in
        (s' : S) × (c'.parent ≡ some s')
        × (n ≡ header_size + length d + length payload)
        × (log s' ≡ log s ++ request_bytes q d payload)
  unfolding afc_dispatch_packet dispatch_with request_bytes
  afc_dispatch_packet_complete op d payload c s p n c' hs hp magic small h =
      let q = next_packet p op (length d) (length payload) in
      let h' : dispatch_with service (some s) (some p) op d payload c ≡ ret (Error.success, n, c') =
        rw (hs, hp) at h in
      let (r, ran, rest) = >>=-eq-ret (service.send (afc_packet_to_le q ++ d) s) _ h' in
      let c1 = record c { parent = some r.2; afc_packet = some q } in
      let sizes : length (afc_packet_to_le q ++ d) ≡ header_size + length d =
        length-append (afc_packet_to_le q) d
        ∙ ap (λ k. k + length d) (length-header p op (length d) (length payload) magic) in
      let sent : (r.1 ≡ header_size + length d) × (log r.2 ≡ log s ++ (afc_packet_to_le q ++ d)) =
        ground (
          arith,
          rest,
          sizes,
          service_to_afc_error-success r.0,
          contract.send_complete (afc_packet_to_le q ++ d) s r.1 r.2,
        ) in
      let ran2 : dispatch_payload service payload r.1 r.2 c1 ≡ ret (Error.success, n, c') =
        ground (arith, rest) in
      let (s', hs', hn, hlog) =
        dispatch_payload_complete payload r.1 r.2 c1 n c' refl (omega arith) ran2 in
      (
        s',
        hs',
        omega (arith, hn, sent.0),
        whole_log log s r.2 s' (afc_packet_to_le q) d payload sent.1 hlog,
      )
