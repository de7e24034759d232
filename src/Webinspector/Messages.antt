-- ===== src/Webinspector/Messages.antt =====
-- src/webinspector.c: the messages for a packet, and what a received one comes to.
use libimobiledevice.Common.{ℕ, zero, suc, ◌^◌, ◌<◌, ◌≡◌, ◌≢◌, List, [], ◌∷◌, ◌++◌, some, arith}
use libimobiledevice.Common.Bytes.{length, take, drop}
use libimobiledevice.Common.Run.{ret}
use libimobiledevice.PlistService.{PlistServiceError}
use libimobiledevice.Dictionary.{Dicts}
use libimobiledevice.Dictionary.Laws.{DictLaws}
use libimobiledevice.Webinspector.{
  Inspected, partial_packet_chunk_size, partial_key, final_key, Chunk, message, chunk_of,
  received_chunk, data_chunk,
}

-- A connection that takes every message, and gives those that have come in, one by one: `sent` and
-- `incoming` are the messages of a state.
pub record IsMailbox {P C : Type 0} (channel : Inspected P C) (sent incoming : C → List P)
    : Type 0 where
  pub sends :
      (c : C) (m : P)
      → (c' : C) × (channel.send_binary_plist c (some m) ≡ ret (PlistServiceError.success, c'))
        × (sent c' ≡ sent c ++ (m ∷ []))
  pub receives :
      (c : C) (timeout_ms : ℕ) (m : P) (rest : List P)
      → incoming c ≡ m ∷ rest
      → (c' : C) × (channel.receive_plist_with_timeout c timeout_ms
          ≡ ret (PlistServiceError.success, some m, c'))
        × (incoming c' ≡ rest)

module _ {P : Type 0} (dicts : Dicts P) where
  -- The messages for a packet of `n` whole chunks and a rest.
  abbrev pub in_chunks : ℕ → List ℕ → List P
  in_chunks zero packet = message dicts final_key packet ∷ []
  in_chunks (suc n) packet =
      message dicts partial_key (take partial_packet_chunk_size packet)
      ∷ in_chunks n (drop partial_packet_chunk_size packet)

  -- libplist gives the data of a data node back.
  abbrev pub DataBack : Type 0
  DataBack = (bs : List ℕ) → dicts.data_val (dicts.new_data bs) ≡ some bs

  module _ (laws : DictLaws dicts) (back : DataBack) where
    data_chunk-data :
        (wrap : List ℕ → Chunk) (bs : List ℕ)
        → 0 < length bs
        → length bs < 2 ^ 32
        → data_chunk wrap (dicts.data_val (dicts.new_data bs)) ≡ wrap bs
    unfolding data_chunk
    data_chunk-data wrap bs k small = ground (arith, back bs)

    pub chunk_of-final :
        (bs : List ℕ)
        → 0 < length bs
        → length bs < 2 ^ 32
        → received_chunk dicts PlistServiceError.success (some (message dicts final_key bs))
          ≡ Chunk.last_part bs
    unfolding received_chunk chunk_of message
    chunk_of-final bs k small =
        rw
          (
            received_chunk,
            chunk_of,
            message,
            laws.get-set dicts.new_dict final_key (dicts.new_data bs),
          )
          (data_chunk-data Chunk.last_part bs k small)

    other_key : partial_key ≢ final_key
    other_key q = cc

    pub chunk_of-partial :
        (bs : List ℕ)
        → 0 < length bs
        → length bs < 2 ^ 32
        → received_chunk dicts PlistServiceError.success (some (message dicts partial_key bs))
          ≡ Chunk.part bs
    unfolding received_chunk chunk_of message
    chunk_of-partial bs k small =
        rw
          (
            received_chunk,
            chunk_of,
            message,
            laws.get-set-other dicts.new_dict partial_key final_key (dicts.new_data bs) other_key,
            laws.get-new final_key,
            laws.get-set dicts.new_dict partial_key (dicts.new_data bs),
          )
          (data_chunk-data Chunk.part bs k small)
