-- ===== src/PlistService/Hang.antt =====
-- The receive loop of a property list: when it comes to an end, and when it does not.
use libimobiledevice.Common.{
  ℕ, Bool, zero, suc, ◌+◌, ◌-◌, ◌≤◌, ◌<◌, ◌≡◌, List, [], ◌++◌, arith, ltb, inl, inr, Bool-cases,
}
use libimobiledevice.Common.Run.{ret, Ends, Ends->>=}
use libimobiledevice.Common.Bytes.{length, length-append}
use libimobiledevice.Service.{ServiceError, Service}
use libimobiledevice.PlistService.{
  Codec, packet_length, receive_content, finish_receive, receive_packet,
}

-- Reads return, and a successful one brings a byte at least.
pub record Flowing {S : Type 0} (service : Service S) : Type 0 where
  pub returns : (len millis : ℕ) (s : S) → Ends (service.receive_with_timeout len millis s)
  pub progress :
      (len millis : ℕ) (s : S) (bs : List ℕ) (s' : S)
      → service.receive_with_timeout len millis s ≡ ret (ServiceError.success, bs, s')
      → 0 < length bs

module _ {P S : Type 0} (codec : Codec P) (service : Service S) where
  receive_content-Ends :
      (flowing : Flowing service) (f pktlen : ℕ) (buf : List ℕ) (s : S)
      → pktlen ≤ length buf + f
      → Ends (receive_content codec service f pktlen buf s)
  unfolding receive_content
  receive_content-Ends flowing zero pktlen buf s k = ground arith
  receive_content-Ends flowing (suc f) pktlen buf s k =
      elim (Bool-cases (ltb (length buf) pktlen)) [
        | inr done ↦ rw (done, receive_content) tt
        | inl more ↦
            rw (more, receive_content)
              (Ends->>= _ _ (flowing.returns (pktlen - length buf) 30000 s) λ r e. ground (
                arith,
                flowing.progress (pktlen - length buf) 30000 s r.1 r.2,
                length-append buf r.1,
                receive_content-Ends flowing f pktlen (buf ++ r.1) r.2,
              ))
      ]

  finish_receive-Ends :
      (pktlen : ℕ) (buf : List ℕ) (e : ServiceError) (s : S)
      → Ends (finish_receive codec service pktlen buf e s)
  unfolding finish_receive
  finish_receive-Ends pktlen buf e s = ground arith

  -- If reads return and a successful read brings a byte at least, then, after the bytes of a length
  -- have come in, as many rounds as that length are enough for the reception of the property list
  -- to return, whatever comes.
  receive_packet-Ends :
      (flowing : Flowing service) (rounds : ℕ) (grants : ℕ → Bool) (bs : List ℕ) (s : S)
      → packet_length bs ≤ rounds
      → Ends (receive_packet codec service rounds grants bs s)
  unfolding receive_packet
  receive_packet-Ends flowing rounds grants bs s k = elim (Bool-cases (grants (packet_length bs))) [
    | inr refused ↦ rw (refused, receive_packet) tt
    | inl room ↦
        rw (room, receive_packet)
          (Ends->>= _ _ (receive_content-Ends flowing rounds (packet_length bs) [] s (omega arith))
            λ r e. finish_receive-Ends (packet_length bs) r.0 r.1 r.2)
  ]
