-- ===== src/Webinspector/Unfinished.antt =====
-- The packets of whole chunks, whose end webinspector_send does not mark.
use libimobiledevice.Common.{
  ℕ, zero, suc, ◌*◌, ◌<◌, ◌≡◌, refl, ap, ◌∙◌, List, [], ◌∷◌, ◌++◌, none, some, append_assoc, arith,
  lt→ltb, ge→ltb,
}
use libimobiledevice.Common.Bytes.{length, take, drop, length-take, length-drop}
use libimobiledevice.Common.Run.{ret}
use libimobiledevice.PlistService.{PlistServiceError, Codec}
use libimobiledevice.Dictionary.{Dicts}
use libimobiledevice.Dictionary.Laws.{DictLaws}
use libimobiledevice.Webinspector.{
  WebinspectorError, Inspected, partial_packet_chunk_size, partial_key, message, received_chunk,
  packet_of, send_chunks, webinspector_send, receive_chunks, webinspector_receive_with_timeout,
}
use libimobiledevice.Webinspector.Messages.{IsMailbox, DataBack}
use libimobiledevice.Webinspector.RoundTrip.{
  send_message_sends, receive_chunks-part, send_packet-chunks,
}

-- Where no message is left to come in, a reception runs into its time-out.
abbrev pub RunsDry : {P C : Type 0} → Inspected P C → (C → List P) → Type 0
RunsDry {C = C} channel incoming =
    (c : C) (timeout_ms : ℕ)
    → incoming c ≡ []
    → (c' : C) × (channel.receive_plist_with_timeout c timeout_ms
        ≡ ret (PlistServiceError.receive_timeout, none, c'))

-- The messages for `n` chunks, none of which is marked as the last.
abbrev pub only_parts : {P : Type 0} → Dicts P → ℕ → List ℕ → List P
only_parts dicts zero packet = []
only_parts dicts (suc n) packet =
    message dicts partial_key (take partial_packet_chunk_size packet)
    ∷ only_parts dicts n (drop partial_packet_chunk_size packet)

module _ {P C : Type 0} (codec : Codec P) (dicts : Dicts P) (channel : Inspected P C)
    (sent incoming : C → List P) (mailbox : IsMailbox channel sent incoming) where
  send_chunks_parts :
      (n f : ℕ) (packet : List ℕ) (c : C)
      → n < f
      → length packet ≡ 8096 * suc n
      → (c' : C) × (send_chunks codec dicts channel f packet c
          ≡ ret (WebinspectorError.success, c'))
        × (sent c' ≡ sent c ++ only_parts dicts (suc n) packet)
  unfolding send_chunks
  send_chunks_parts n zero packet c k size = absurd (omega arith)
  send_chunks_parts zero (suc f) packet c k size =
      let left = length-drop partial_packet_chunk_size packet in
      let (c1, e1, q1) =
        send_message_sends codec dicts channel sent incoming mailbox partial_key
          (take partial_packet_chunk_size packet) c in
      (
        c1,
        rw
            (
              send_chunks,
              ge→ltb (length packet) 8096 (omega arith),
              e1,
              ge→ltb 0 (length (drop partial_packet_chunk_size packet)) (omega (arith, left)),
            )
            refl,
        q1,
      )
  send_chunks_parts (suc n) (suc f) packet c k size =
      let rest = drop partial_packet_chunk_size packet in
      let left = length-drop partial_packet_chunk_size packet in
      let (c1, e1, q1) =
        send_message_sends codec dicts channel sent incoming mailbox partial_key
          (take partial_packet_chunk_size packet) c in
      let (c', e, q) = send_chunks_parts n f rest c1 (omega arith) (omega (arith, left)) in
      (
        c',
        rw
            (
              send_chunks,
              ge→ltb (length packet) 8096 (omega arith),
              e1,
              lt→ltb 0 (length rest) (omega (arith, left)),
            )
            e,
        q
            ∙ ap (λ l. l ++ only_parts dicts (suc n) rest) q1
            ∙ append_assoc (sent c) _ (only_parts dicts (suc n) rest),
      )

  module _ (laws : DictLaws dicts) (back : DataBack dicts) (dry : RunsDry channel incoming) where
    receive_chunks_parts :
        (n f timeout_ms : ℕ) (buf packet : List ℕ) (c : C)
        → n < f
        → length packet ≡ 8096 * n
        → incoming c ≡ only_parts dicts n packet
        → (packet' : List ℕ) × (c' : C) × (receive_chunks codec dicts channel f timeout_ms buf c
            ≡ ret (WebinspectorError.mux_error, packet', c'))
    unfolding receive_chunks received_chunk
    receive_chunks_parts n zero timeout_ms buf packet c k size e = absurd (omega arith)
    receive_chunks_parts zero (suc f) timeout_ms buf packet c k size e =
        let (c', got) = dry c timeout_ms e in (buf, c', ground (arith, got))
    receive_chunks_parts (suc n) (suc f) timeout_ms buf packet c k size e =
        let first = take partial_packet_chunk_size packet in
        let whole = length-take partial_packet_chunk_size packet (omega arith) in
        let left = length-drop partial_packet_chunk_size packet in
        let (c1, step, left1) =
          receive_chunks-part codec dicts channel sent incoming mailbox laws back f timeout_ms buf
            first c _ (omega (arith, whole)) (omega (arith, whole)) e in
        let (packet', c', got) =
          receive_chunks_parts n f timeout_ms (buf ++ first) (drop partial_packet_chunk_size packet)
            c1 (omega arith) (omega (arith, left)) left1 in
        (packet', c', step ∙ got)

    -- If the length of the encoding of a property list is a multiple of 8096, webinspector_send
    -- returns a success after it has sent messages that are all marked as partial, and
    -- webinspector_receive_with_timeout, which is given these messages and then runs into its
    -- time-out, returns a MUX_ERROR and no property list, however many rounds more its loop is
    -- given. It is assumed that the connection takes every message and gives those that have come
    -- in, and that libplist gives back what was put into a dictionary and a data node.
    pub webinspector_receive-unfinished :
        (n rounds timeout_ms : ℕ) (p : P) (c d : C)
        → let packet = codec.to_bin p in
          length packet ≡ 8096 * suc n
          → suc n < rounds
          → incoming d ≡ only_parts dicts (suc n) packet
          → (c' d' : C) × (webinspector_send codec dicts channel rounds (some c) (some p)
              ≡ ret (WebinspectorError.success, some c'))
            × (sent c' ≡ sent c ++ only_parts dicts (suc n) packet)
            × (webinspector_receive_with_timeout codec dicts channel rounds (some d) timeout_ms
                ≡ ret (WebinspectorError.mux_error, none, some d'))
    unfolding webinspector_send packet_of webinspector_receive_with_timeout
    webinspector_receive-unfinished n rounds timeout_ms p c d size k e =
        let packet = codec.to_bin p in
        let (c', s, q) = send_chunks_parts n rounds packet c (omega arith) size in
        let (packet', d', r) =
          receive_chunks_parts (suc n) rounds timeout_ms [] packet d k size e in
        (
          c',
          d',
          send_packet-chunks codec dicts channel sent incoming mailbox laws back rounds packet c c'
              (omega arith) s,
          q,
          ground (arith, r),
        )
