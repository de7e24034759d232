-- ===== src/Webinspector.antt =====
-- src/webinspector.c: property lists to and from the web inspector, cut into messages.
pub mod Client
pub mod Messages
pub mod RoundTrip
pub mod Unfinished
use libimobiledevice.Common.{
  ℕ, zero, suc, ◌%◌, ◌^◌, Bool, true, false, ◌&&◌, ◌||◌, List, [], ◌∷◌, ◌++◌, Option, none, some,
  ltb, ◌==◌, if◌then◌else◌,
}
use libimobiledevice.Common.Bytes.{length, take, drop, codes}
use libimobiledevice.Common.Run.{Run, ret, hangs, faults, ◌>>=◌}
use libimobiledevice.Service.{Service}
use libimobiledevice.PlistService.{
  PlistServiceError, Codec, PlistClient, property_list_service_send_binary_plist,
  property_list_service_receive_plist_with_timeout,
}
use libimobiledevice.PlistService.Secure.{succeeded}
use libimobiledevice.DeviceLink.{Text}
use libimobiledevice.Dictionary.{Dicts}

-- The codes of webinspector_error_t.
pub data WebinspectorError : Type 0 where
  success invalid_arg plist_error mux_error ssl_error receive_timeout not_enough_data
        unknown_error :
      WebinspectorError

abbrev pub is_success : WebinspectorError → Bool
is_success WebinspectorError.success = true
is_success _ = false

unfoldable pub webinspector_error : PlistServiceError → WebinspectorError
webinspector_error PlistServiceError.success = WebinspectorError.success
webinspector_error PlistServiceError.invalid_arg = WebinspectorError.invalid_arg
webinspector_error PlistServiceError.plist_error = WebinspectorError.plist_error
webinspector_error PlistServiceError.mux_error = WebinspectorError.mux_error
webinspector_error PlistServiceError.ssl_error = WebinspectorError.ssl_error
webinspector_error PlistServiceError.receive_timeout = WebinspectorError.receive_timeout
webinspector_error PlistServiceError.not_enough_data = WebinspectorError.not_enough_data
webinspector_error PlistServiceError.unknown_error = WebinspectorError.unknown_error

-- property_list_service_send_binary_plist and property_list_service_receive_plist_with_timeout.
pub record Inspected (P C : Type 0) : Type 0 where
  pub send_binary_plist : C → Option P → Run (PlistServiceError × C)
  pub receive_plist_with_timeout : C → ℕ → Run (PlistServiceError × Option P × C)

-- Over a byte service; the allocator and the rounds are those of the reception.
abbrev pub inspected_of :
    {P S : Type 0} → Codec P → Service S → ℕ → (ℕ → Bool) → Inspected P (PlistClient S)
inspected_of codec service rounds grants = record {
  send_binary_plist = property_list_service_send_binary_plist codec service;
  receive_plist_with_timeout =
      property_list_service_receive_plist_with_timeout codec service rounds grants;
}

abbrev pub partial_packet_chunk_size : ℕ
partial_packet_chunk_size = 8096

abbrev pub partial_key : Text
partial_key = codes "WIRPartialMessageKey"

abbrev pub final_key : Text
final_key = codes "WIRFinalMessageKey"

-- What a received message comes to.
pub data Chunk : Type 0 where
  failed : WebinspectorError → Chunk
  part : List ℕ → Chunk
  last_part : List ℕ → Chunk

-- The data of a node; `wrap` says whether it is the last.
unfoldable pub data_chunk : (List ℕ → Chunk) → Option (List ℕ) → Chunk
data_chunk wrap none = Chunk.failed WebinspectorError.plist_error
data_chunk wrap (some bs) =
    if length bs == 0 || ltb 0xFFFFFFFF (length bs)
    then Chunk.failed WebinspectorError.plist_error
    else wrap bs

module _ {P : Type 0} (dicts : Dicts P) where
  unfoldable pub message : Text → List ℕ → P
  message key data' = dicts.set_item dicts.new_dict key (dicts.new_data data')

  unfoldable pub chunk_of : P → Chunk
  chunk_of m = elim (dicts.get_item m final_key) [
    | some key ↦ data_chunk Chunk.last_part (dicts.data_val key)
    | none ↦ elim (dicts.get_item m partial_key) [
      | some key ↦ data_chunk Chunk.part (dicts.data_val key)
      | none ↦ Chunk.failed WebinspectorError.plist_error
    ]
  ]

  unfoldable pub received_chunk : PlistServiceError → Option P → Chunk
  received_chunk e none = Chunk.failed WebinspectorError.mux_error
  received_chunk e (some m) =
      if succeeded e then chunk_of m else Chunk.failed WebinspectorError.mux_error

-- `packet_length` is cast to 32 bits.
unfoldable pub restored : {P : Type 0} → Codec P → List ℕ → WebinspectorError × Option P
restored codec [] = (WebinspectorError.success, none)
restored codec (b ∷ bs) = elim (codec.from_bin (take (length (b ∷ bs) % 2 ^ 32) (b ∷ bs))) [
  | none ↦ (WebinspectorError.plist_error, none)
  | some p ↦ (WebinspectorError.success, some p)
]

-- plist_to_bin, which makes no packet of NULL.
unfoldable pub packet_of : {P : Type 0} → Codec P → Option P → List ℕ
packet_of codec none = []
packet_of codec (some p) = codec.to_bin p

module _ {P C : Type 0} (codec : Codec P) (dicts : Dicts P) (channel : Inspected P C) where
  unfoldable pub send_message : Text → List ℕ → C → Run (WebinspectorError × C)
  send_message key data' c = channel.send_binary_plist c (some (message dicts key data')) >>= λ r.
      ret (webinspector_error r.0, r.1)

  -- `do ... while(packet_length > 0)` on what is left of the packet. After a final message nothing
  -- is left.
  unfoldable pub send_chunks : ℕ → List ℕ → C → Run (WebinspectorError × C)
  send_chunks zero packet c = hangs
  send_chunks (suc f) packet c = elim (ltb (length packet) partial_packet_chunk_size) [
    | true ↦ send_message final_key packet c
    | false ↦ send_message partial_key (take partial_packet_chunk_size packet) c >>= λ r.
        elim (is_success r.0 && ltb 0 (length (drop partial_packet_chunk_size packet))) [
          | true ↦ send_chunks f (drop partial_packet_chunk_size packet) r.1
          | false ↦ ret r
        ]
  ]

  -- A client that is NULL is read through.
  unfoldable pub send_packet : ℕ → Option C → List ℕ → Run (WebinspectorError × Option C)
  send_packet rounds client [] = ret (WebinspectorError.unknown_error, client)
  send_packet rounds none (b ∷ bs) = faults
  send_packet rounds (some c) (b ∷ bs) = send_chunks rounds (b ∷ bs) c >>= λ r. ret (r.0, some r.1)

  -- `rounds` bounds the loop.
  unfoldable pub webinspector_send : ℕ → Option C → Option P → Run (WebinspectorError × Option C)
  webinspector_send rounds client plist = send_packet rounds client (packet_of codec plist)

  -- `do ... while(!is_final_message)`: the packet so far, and the code that ended the loop.
  unfoldable pub receive_chunks : ℕ → ℕ → List ℕ → C → Run (WebinspectorError × List ℕ × C)
  receive_chunks zero timeout_ms packet c = hangs
  receive_chunks (suc f) timeout_ms packet c =
      channel.receive_plist_with_timeout c timeout_ms >>= λ r. elim (received_chunk dicts r.0 r.1) [
        | Chunk.failed e ↦ ret (e, packet, r.2)
        | Chunk.part bs ↦ receive_chunks f timeout_ms (packet ++ bs) r.2
        | Chunk.last_part bs ↦ ret (WebinspectorError.success, packet ++ bs, r.2)
      ]

  abbrev pub Received : Type 0
  Received = Run (WebinspectorError × Option P × Option C)

  -- The code, `*plist` with `none` where it is not written or NULL, and the client. Memory for the
  -- packet is granted.
  unfoldable pub webinspector_receive_with_timeout : ℕ → Option C → ℕ → Received
  webinspector_receive_with_timeout rounds none timeout_ms = faults
  webinspector_receive_with_timeout rounds (some c) timeout_ms =
      receive_chunks rounds timeout_ms [] c >>= λ r.
      if is_success r.0
      then ret ((restored codec r.1).0, (restored codec r.1).1, some r.2)
      else ret (r.0, none, some r.2)

  unfoldable pub webinspector_receive : ℕ → Option C → Received
  webinspector_receive rounds client = webinspector_receive_with_timeout rounds client 5000
