-- ===== src/PlistService.antt =====
-- src/property_list_service.c: property lists over a byte service, each behind its length. The
-- property lists themselves are libplist's: the fields of `Codec` are its calls.
pub mod Send
pub mod Receive
pub mod Hang
pub mod Secure
use libimobiledevice.Common.{
  ℕ, zero, suc, ◌+◌, ◌-◌, Bool, true, false, not, ◌&&◌, List, [], ◌∷◌, ◌++◌, Option, none, some,
  ltb, ◌==◌, if◌then◌else◌,
}
use libimobiledevice.Common.Bytes.{length, take, bytes_eq, be32_bytes, from_be}
use libimobiledevice.Common.Run.{Run, ret, hangs, ◌>>=◌}
use libimobiledevice.Service.{ServiceError, Service, receive}

-- The codes of property_list_service_error_t.
pub data PlistServiceError : Type 0 where
  success invalid_arg plist_error mux_error ssl_error receive_timeout not_enough_data
        unknown_error :
      PlistServiceError

unfoldable pub service_to_property_list_service_error : ServiceError → PlistServiceError
service_to_property_list_service_error ServiceError.success = PlistServiceError.success
service_to_property_list_service_error ServiceError.invalid_arg = PlistServiceError.invalid_arg
service_to_property_list_service_error ServiceError.mux_error = PlistServiceError.mux_error
service_to_property_list_service_error ServiceError.ssl_error = PlistServiceError.ssl_error
service_to_property_list_service_error ServiceError.not_enough_data =
    PlistServiceError.not_enough_data
service_to_property_list_service_error ServiceError.timeout = PlistServiceError.receive_timeout
service_to_property_list_service_error _ = PlistServiceError.unknown_error

-- plist_to_bin and plist_to_xml, which may leave no bytes; plist_from_bin and plist_from_xml.
pub record Codec (P : Type 0) : Type 0 where
  pub to_bin : P → List ℕ
  pub to_xml : P → List ℕ
  pub from_bin : List ℕ → Option P
  pub from_xml : List ℕ → Option P

-- What a client pointer leads to: NULL, or a client whose service client may be NULL.
abbrev pub PlistClient : Type 0 → Type 0
PlistClient S = Option (Option S)

-- "bplist00" and "<?xml".
abbrev pub bin_magic : List ℕ
bin_magic = 0x62 ∷ 0x70 ∷ 0x6c ∷ 0x69 ∷ 0x73 ∷ 0x74 ∷ 0x30 ∷ 0x30 ∷ []

abbrev pub xml_magic : List ℕ
xml_magic = 0x3c ∷ 0x3f ∷ 0x78 ∷ 0x6d ∷ 0x6c ∷ []

-- A control character other than tab, line feed and carriage return.
unfoldable pub is_invalid : ℕ → Bool
is_invalid b = ltb b 0x20 && (not (b == 0x09) && (not (b == 0x0a) && not (b == 0x0d)))

-- The loop that turns them into spaces stops before the last byte.
unfoldable pub blank_invalid : List ℕ → List ℕ
blank_invalid [] = []
blank_invalid (b ∷ []) = b ∷ []
blank_invalid (b ∷ c ∷ bs) = (if is_invalid b then 0x20 else b) ∷ blank_invalid (c ∷ bs)

-- The length in the first four bytes; those that did not come are 0.
unfoldable pub packet_length : List ℕ → ℕ
packet_length bs = from_be 0 (take 4 (bs ++ (0 ∷ 0 ∷ 0 ∷ 0 ∷ [])))

module _ {P S : Type 0} (codec : Codec P) (service : Service S) where
  -- After the length has been sent, `bytes` of it.
  unfoldable pub send_content : List ℕ → ℕ → S → Run (PlistServiceError × PlistClient S)
  send_content content bytes s =
      if bytes == 4
      then (service.send content s >>= λ r.
          if r.1 == 0
          then ret (PlistServiceError.mux_error, some (some r.2))
          else if r.1 == length content
          then ret (PlistServiceError.success, some (some r.2))
          else ret (PlistServiceError.unknown_error, some (some r.2)))
      else if bytes == 0
      then ret (PlistServiceError.mux_error, some (some s))
      else ret (PlistServiceError.unknown_error, some (some s))

  unfoldable pub send_bytes : List ℕ → S → Run (PlistServiceError × PlistClient S)
  send_bytes [] s = ret (PlistServiceError.plist_error, some (some s))
  send_bytes (b ∷ bs) s =
      service.send (be32_bytes (length (b ∷ bs))) s >>= λ r. send_content (b ∷ bs) r.1 r.2

  -- The codes of the two calls of service_send are not looked at, only their counts.
  unfoldable pub internal_plist_send :
      PlistClient S → Option P → Bool → Run (PlistServiceError × PlistClient S)
  internal_plist_send none plist binary = ret (PlistServiceError.invalid_arg, none)
  internal_plist_send (some none) plist binary = ret (PlistServiceError.invalid_arg, some none)
  internal_plist_send (some (some s)) none binary =
      ret (PlistServiceError.invalid_arg, some (some s))
  internal_plist_send (some (some s)) (some p) binary =
      send_bytes (if binary then codec.to_bin p else codec.to_xml p) s

  unfoldable pub property_list_service_send_xml_plist :
      PlistClient S → Option P → Run (PlistServiceError × PlistClient S)
  property_list_service_send_xml_plist c p = internal_plist_send c p false

  unfoldable pub property_list_service_send_binary_plist :
      PlistClient S → Option P → Run (PlistServiceError × PlistClient S)
  property_list_service_send_binary_plist c p = internal_plist_send c p true

  -- `while (curlen < pktlen)`: the contents so far, the code that broke the loop or success.
  unfoldable pub receive_content : ℕ → ℕ → List ℕ → S → Run (List ℕ × ServiceError × S)
  receive_content zero pktlen buf s =
      if ltb (length buf) pktlen then hangs else ret (buf, ServiceError.success, s)
  receive_content (suc f) pktlen buf s = elim (ltb (length buf) pktlen) [
    | false ↦ ret (buf, ServiceError.success, s)
    | true ↦ receive service (pktlen - length buf) s >>= λ r. elim r.0 [
      | ServiceError.success ↦ receive_content f pktlen (buf ++ r.1) r.2
      | _ ↦ ret (buf, r.0, r.2)
    ]
  ]

  -- The property list in the contents, if they look like one.
  unfoldable pub parse_content : List ℕ → Option P
  parse_content content =
      if ltb 8 (length content) && bytes_eq (take 8 content) bin_magic
      then codec.from_bin content
      else if ltb 5 (length content) && bytes_eq (take 5 content) xml_magic
      then codec.from_xml (blank_invalid content)
      else none

  abbrev pub Received : Type 0
  Received = Run (PlistServiceError × Option P × PlistClient S)

  -- After the loop.
  unfoldable pub finish_receive : ℕ → List ℕ → ServiceError → S → Received
  finish_receive pktlen buf e s =
      if ltb (length buf) pktlen
      then ret (service_to_property_list_service_error e, none, some (some s))
      else elim (parse_content buf) [
        | none ↦ ret (PlistServiceError.plist_error, none, some (some s))
        | some p ↦ ret (PlistServiceError.success, some p, some (some s))
      ]

  -- After the first read; `grants` is the allocator, `rounds` bounds the loop.
  unfoldable pub receive_packet : ℕ → (ℕ → Bool) → List ℕ → S → Received
  receive_packet rounds grants bs s =
      let pktlen = packet_length bs in
      if grants pktlen
      then (receive_content rounds pktlen [] s >>= λ r. finish_receive pktlen r.0 r.1 r.2)
      else ret (PlistServiceError.unknown_error, none, some (some s))

  -- The code, `*plist` with `none` for NULL, and the client. The pointer `plist` is not NULL.
  unfoldable pub internal_plist_receive_timeout : ℕ → (ℕ → Bool) → PlistClient S → ℕ → Received
  internal_plist_receive_timeout rounds grants none millis =
      ret (PlistServiceError.invalid_arg, none, none)
  internal_plist_receive_timeout rounds grants (some none) millis =
      ret (PlistServiceError.invalid_arg, none, some none)
  internal_plist_receive_timeout rounds grants (some (some s)) millis =
      service.receive_with_timeout 4 millis s >>= λ r. elim r.0 [
        | ServiceError.success ↦
            if length r.1 == 0
            then ret (PlistServiceError.receive_timeout, none, some (some r.2))
            else receive_packet rounds grants r.1 r.2
        | _ ↦ ret (service_to_property_list_service_error r.0, none, some (some r.2))
      ]

  unfoldable pub property_list_service_receive_plist_with_timeout :
      ℕ → (ℕ → Bool) → PlistClient S → ℕ → Received
  property_list_service_receive_plist_with_timeout rounds grants c millis =
      internal_plist_receive_timeout rounds grants c millis

  unfoldable pub property_list_service_receive_plist : ℕ → (ℕ → Bool) → PlistClient S → Received
  property_list_service_receive_plist rounds grants c =
      internal_plist_receive_timeout rounds grants c 30000

-- What the protocol clients use of this file, over the states `C` of a client pointer: whether it
-- is NULL, property_list_service_send_binary_plist and property_list_service_receive_plist.
pub record Channel (P C : Type 0) : Type 0 where
  pub is_null : C → Bool
  pub send : C → Option P → Run (PlistServiceError × C)
  pub receive_plist : C → Run (PlistServiceError × Option P × C)

abbrev pub is_null_client : {S : Type 0} → PlistClient S → Bool
is_null_client none = true
is_null_client (some c) = false

abbrev pub channel_of :
    {P S : Type 0} → Codec P → Service S → ℕ → (ℕ → Bool) → Channel P (PlistClient S)
channel_of codec service rounds grants = record {
  is_null = is_null_client;
  send = property_list_service_send_binary_plist codec service;
  receive_plist = property_list_service_receive_plist codec service rounds grants;
}
