-- ===== src/Webinspector/RoundTrip.antt =====
-- What webinspector_send puts into messages, webinspector_receive_with_timeout takes out of them.
use libimobiledevice.Common.{
  ℕ, zero, suc, ◌*◌, ◌/◌, ◌%◌, ◌^◌, ◌<◌, ◌≡◌, refl, ap, ◌∙◌, List, [], ◌∷◌, ◌++◌, some,
  append_assoc, arith, lt→ltb, ge→ltb,
}
use libimobiledevice.Common.Bytes.{
  length, take, drop, length-take, length-drop, take-append-drop, take_self,
}
use libimobiledevice.Common.Run.{ret}
use libimobiledevice.PlistService.{Codec}
use libimobiledevice.DeviceLink.{Text}
use libimobiledevice.Dictionary.{Dicts}
use libimobiledevice.Dictionary.Laws.{DictLaws}
use libimobiledevice.Webinspector.{
  WebinspectorError, webinspector_error, Inspected, partial_packet_chunk_size, partial_key,
  final_key, message, restored, packet_of, send_message, send_chunks, send_packet,
  webinspector_send, receive_chunks, webinspector_receive_with_timeout,
}
use libimobiledevice.Webinspector.Messages.{
  IsMailbox, DataBack, in_chunks, chunk_of-final, chunk_of-partial,
}

module _ {P C : Type 0} (codec : Codec P) (dicts : Dicts P) (channel : Inspected P C)
    (sent incoming : C → List P) (mailbox : IsMailbox channel sent incoming) where
  pub send_message_sends :
      (key : Text) (bs : List ℕ) (c : C)
      → (c' : C) × (send_message codec dicts channel key bs c ≡ ret (WebinspectorError.success, c'))
        × (sent c' ≡ sent c ++ (message dicts key bs ∷ []))
  unfolding send_message webinspector_error
  send_message_sends key bs c =
      let (c', e, q) = mailbox.sends c (message dicts key bs) in (c', ground (arith, e), q)

  send_chunks_all :
      (n f : ℕ) (packet : List ℕ) (c : C)
      → n < f
      → 8096 * n < length packet
      → length packet < 8096 * suc n
      → (c' : C) × (send_chunks codec dicts channel f packet c
          ≡ ret (WebinspectorError.success, c'))
        × (sent c' ≡ sent c ++ in_chunks dicts n packet)
  unfolding send_chunks
  send_chunks_all n zero packet c k lo hi = absurd (omega arith)
  send_chunks_all zero (suc f) packet c k lo hi =
      let (c', e, q) = send_message_sends final_key packet c in
      (c', rw (send_chunks, lt→ltb (length packet) 8096 (omega arith)) e, q)
  send_chunks_all (suc n) (suc f) packet c k lo hi =
      let left = drop partial_packet_chunk_size packet in
      let size = length-drop partial_packet_chunk_size packet in
      let (c1, e1, q1) = send_message_sends partial_key (take partial_packet_chunk_size packet) c in
      let (c', e, q) =
        send_chunks_all n f left c1 (omega arith) (omega (arith, size)) (omega (arith, size)) in
      (
        c',
        rw
            (
              send_chunks,
              ge→ltb (length packet) 8096 (omega arith),
              e1,
              lt→ltb 0 (length left) (omega (arith, size)),
            )
            e,
        q
            ∙ ap (λ l. l ++ in_chunks dicts n left) q1
            ∙ append_assoc (sent c) _ (in_chunks dicts n left),
      )

  module _ (laws : DictLaws dicts) (back : DataBack dicts) where
    -- A message with a part of the packet is read, and the loop goes on.
    pub receive_chunks-part :
        (f timeout_ms : ℕ) (buf bs : List ℕ) (c : C) (rest : List P)
        → 0 < length bs
        → length bs < 2 ^ 32
        → incoming c ≡ message dicts partial_key bs ∷ rest
        → (c' : C) × (receive_chunks codec dicts channel (suc f) timeout_ms buf c
            ≡ receive_chunks codec dicts channel f timeout_ms (buf ++ bs) c')
          × (incoming c' ≡ rest)
    unfolding receive_chunks
    receive_chunks-part f timeout_ms buf bs c rest k small e =
        let (c', got, left) = mailbox.receives c timeout_ms (message dicts partial_key bs) rest e in
        (c', ground (arith, got, chunk_of-partial dicts laws back bs k small), left)

    receive_chunks_all :
        (n f timeout_ms : ℕ) (buf packet : List ℕ) (c : C) (rest : List P)
        → n < f
        → 8096 * n < length packet
        → length packet < 8096 * suc n
        → length packet < 2 ^ 32
        → incoming c ≡ in_chunks dicts n packet ++ rest
        → (c' : C) × (receive_chunks codec dicts channel f timeout_ms buf c
            ≡ ret (WebinspectorError.success, buf ++ packet, c'))
          × (incoming c' ≡ rest)
    unfolding receive_chunks
    receive_chunks_all n zero timeout_ms buf packet c rest k lo hi small e = absurd (omega arith)
    receive_chunks_all zero (suc f) timeout_ms buf packet c rest k lo hi small e =
        let (c', got, left) =
          mailbox.receives c timeout_ms (message dicts final_key packet) rest e in
        (c', ground (arith, got, chunk_of-final dicts laws back packet (omega arith) small), left)
    receive_chunks_all (suc n) (suc f) timeout_ms buf packet c rest k lo hi small e =
        let first = take partial_packet_chunk_size packet in
        let later = drop partial_packet_chunk_size packet in
        let size = length-drop partial_packet_chunk_size packet in
        let whole = length-take partial_packet_chunk_size packet (omega arith) in
        let (c1, step, left1) =
          receive_chunks-part f timeout_ms buf first c (in_chunks dicts n later ++ rest)
            (omega (arith, whole)) (omega (arith, whole)) e in
        let (c', got, left) =
          receive_chunks_all n f timeout_ms (buf ++ first) later c1 rest (omega arith)
            (omega (arith, size)) (omega (arith, size)) (omega (arith, size)) left1 in
        let all : (buf ++ first) ++ later ≡ buf ++ packet =
          append_assoc buf first later
          ∙ ap (λ l. buf ++ l) (take-append-drop partial_packet_chunk_size packet) in
        (c', step ∙ rw (← all) got, left)

    restored-bin :
        (p : P)
        → 0 < length (codec.to_bin p)
        → length (codec.to_bin p) < 2 ^ 32
        → codec.from_bin (codec.to_bin p) ≡ some p
        → restored codec (codec.to_bin p) ≡ (WebinspectorError.success, some p)
    unfolding restored
    restored-bin p k small again = whole (codec.to_bin p) k small again
      where
        whole :
            (bs : List ℕ)
            → 0 < length bs
            → length bs < 2 ^ 32
            → codec.from_bin bs ≡ some p
            → restored codec bs ≡ (WebinspectorError.success, some p)
        whole [] k small again = absurd (omega arith)
        whole (b ∷ bs) k small again =
            let m : length (b ∷ bs) % 2 ^ 32 ≡ length (b ∷ bs) = omega arith in
            rw (restored, m, take_self (length (b ∷ bs)) (b ∷ bs) (omega arith), again) refl

    pub send_packet-chunks :
        (rounds : ℕ) (packet : List ℕ) (c : C) (c' : C)
        → 0 < length packet
        → send_chunks codec dicts channel rounds packet c ≡ ret (WebinspectorError.success, c')
        → send_packet codec dicts channel rounds (some c) packet
          ≡ ret (WebinspectorError.success, some c')
    unfolding send_packet
    send_packet-chunks rounds [] c c' k e = absurd (omega arith)
    send_packet-chunks rounds (b ∷ bs) c c' k e = rw (send_packet, e) refl

    -- If the length of the encoding of a property list is no multiple of 8096 and less than 2 ^ 32,
    -- webinspector_send sends it as whole chunks and a last one, and from these messages, whatever
    -- follows them, webinspector_receive_with_timeout makes the property list itself and leaves
    -- what follows. It is assumed that the connection takes every message and gives those that
    -- have come in, and that libplist gives back what was put into a dictionary, a data node and
    -- the encoding; as many rounds of the loops as there are messages are enough.
    pub webinspector_receive-send :
        (rounds timeout_ms : ℕ) (p : P) (rest : List P) (c d : C)
        → let packet = codec.to_bin p in
          0 < length packet % 8096
          → length packet < 2 ^ 32
          → length packet / 8096 < rounds
          → codec.from_bin packet ≡ some p
          → incoming d ≡ in_chunks dicts (length packet / 8096) packet ++ rest
          → (c' d' : C) × (webinspector_send codec dicts channel rounds (some c) (some p)
              ≡ ret (WebinspectorError.success, some c'))
            × (sent c' ≡ sent c ++ in_chunks dicts (length packet / 8096) packet)
            × (webinspector_receive_with_timeout codec dicts channel rounds (some d) timeout_ms
                ≡ ret (WebinspectorError.success, some p, some d'))
            × (incoming d' ≡ rest)
    unfolding webinspector_send packet_of webinspector_receive_with_timeout
    webinspector_receive-send rounds timeout_ms p rest c d odd small k again e =
        let packet = codec.to_bin p in
        let n = length packet / 8096 in
        let (c', s, q) = send_chunks_all n rounds packet c k (omega arith) (omega arith) in
        let (d', r, left) =
          receive_chunks_all n rounds timeout_ms [] packet d rest k (omega arith) (omega arith)
            small e in
        (
          c',
          d',
          send_packet-chunks rounds packet c c' (omega arith) s,
          q,
          ground (arith, r, restored-bin p (omega arith) small again),
          left,
        )
