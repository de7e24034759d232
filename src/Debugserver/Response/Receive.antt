-- ===== src/Debugserver/Response/Receive.antt =====
-- A response is received as the device frames it.
use libimobiledevice.Common.{
  ℕ, suc, ◌+◌, ◌-◌, ◌≤◌, ◌<◌, ◌≡◌, sym, ap, ◌∙◌, Bool, true, false, List, [], ◌∷◌, ◌++◌, Option,
  none, some, append_assoc, arith, if◌then◌else◌,
}
use libimobiledevice.Common.Bytes.{length, length-append, take-append}
use libimobiledevice.Common.Run.{ret}
use libimobiledevice.Service.{ServiceError, Service, Reliable}
use libimobiledevice.Debugserver.{DebugserverError, Client}
use libimobiledevice.Debugserver.Hex.{
  encode_first, encode_second, debugserver_get_checksum_for_buffer,
  debugserver_response_is_checksum_valid, checksum_hash,
}
use libimobiledevice.Debugserver.Hex.Checksum.{framed, framed_valid}
use libimobiledevice.Debugserver.Response.{
  content_of, with_parent, debugserver_client_send, receive_body, finish_response, receive_rest,
  receive_prefix, debugserver_client_receive_response,
}
use libimobiledevice.Debugserver.Response.Body.{response_of, HasNoHash, receive_char, body_response}

-- An acknowledgement can be sent, and takes nothing from what the device has sent.
pub record Acknowledges {S : Type 0} (service : Service S) (pending : S → List ℕ) : Type 0 where
  pub send_ack :
      (b : ℕ) (s : S)
      → (e : ServiceError) × (n : ℕ) × (s' : S) × (service.send (b ∷ []) s ≡ ret (e, n, s'))
        × (pending s' ≡ pending s)

-- What a response comes to, by the check of its checksum.
abbrev pub verdict : Bool → List ℕ → DebugserverError × Option (List ℕ)
verdict true content = (DebugserverError.success, some content)
verdict false content = (DebugserverError.response_error, none)

content_of-response : (content : List ℕ) (x y : ℕ) → content_of (response_of content x y) ≡ content
content_of-response content x y =
    take-append content (b'#' ∷ x ∷ y ∷ []) _
      (omega (arith, length-append content (b'#' ∷ x ∷ y ∷ [])))

module _ {S : Type 0} (service : Service S) (pending : S → List ℕ)
    (reliable : Reliable service pending) where
  module _ (rounds : ℕ) (grants : ℕ → Bool) (pos : 0 < rounds)
      (granted : (n : ℕ) → grants n ≡ true) where
    rest_response :
        (acks : Acknowledges service pending) (content rest : List ℕ) (x y : ℕ) (valid : Bool)
        (c : Client S)
        → c.noack_mode ≡ false
        → HasNoHash content
        → length content + 3 ≤ rounds
        → debugserver_response_is_checksum_valid (response_of content x y) ≡ ret valid
        → pending c.parent ≡ content ++ (b'#' ∷ x ∷ y ∷ rest)
        → let q = verdict valid content in
          (s' : S) × (receive_rest service rounds grants c ≡ ret (q.0, q.1, with_parent c s'))
          × (pending s' ≡ rest)
    unfolding receive_rest finish_response debugserver_client_send
    rest_response acks content rest x y valid c mode h enough check e =
        let f = rounds - (length content + 3) in
        let split : length content + suc (suc (suc f)) ≡ rounds = omega arith in
        let (s1, run, there) =
          body_response service pending reliable rounds grants pos granted content rest x y f c h
            e in
        let (ack, n, s2, sent, same) = acks.send_ack (if valid then b'+' else b'-') s1 in
        let body : receive_body service rounds grants rounds 3 false (b'$' ∷ []) 1024 c
            ≡ ret (DebugserverError.success, response_of content x y, with_parent c s1) =
          ap (λ n. receive_body service rounds grants n 3 false (b'$' ∷ []) 1024 c) (sym split)
          ∙ run in
        (s2, ground (arith, body, mode, check, content_of-response content x y, sent), same ∙ there)

    -- In acknowledgement mode, a response that the device sends as `+`, `$`, its contents, which
    -- have no `#`, `#` and two characters is received to its end and what follows it is left
    -- unread, whether it is damaged or not: when its checksum is valid the call returns success and
    -- the contents, and otherwise DEBUGSERVER_E_RESPONSE_ERROR and no response. It is assumed that
    -- a read of bytes that the device has sent comes back whole, that an acknowledgement can be
    -- sent, that the allocator grants the buffer, and that the loops are given three rounds more
    -- than the contents have bytes.
    pub receive_response-verdict :
        (acks : Acknowledges service pending) (content rest : List ℕ) (x y : ℕ) (valid : Bool)
        (c : Client S)
        → c.noack_mode ≡ false
        → HasNoHash content
        → length content + 3 ≤ rounds
        → debugserver_response_is_checksum_valid (response_of content x y) ≡ ret valid
        → pending c.parent ≡ b'+' ∷ (response_of content x y ++ rest)
        → let q = verdict valid content in
          (s' : S) × (debugserver_client_receive_response service rounds grants c
            ≡ ret (q.0, q.1, with_parent c s'))
          × (pending s' ≡ rest)
    unfolding debugserver_client_receive_response receive_prefix
    receive_response-verdict acks content rest x y valid c mode h enough check e =
        let (s1, plus, there) = receive_char service pending reliable rounds b'+' _ c pos e in
        let (s2, dollar, there2) =
          receive_char service pending reliable rounds b'$' _ (with_parent c s1) pos there in
        let (s3, run, there3) =
          rest_response acks content rest x y valid (with_parent c s2) mode h enough check
            (there2 ∙ append_assoc content (b'#' ∷ x ∷ y ∷ []) rest) in
        (s3, ground (arith, plus, dollar, mode, run), there3)

    -- A response that the device frames with the checksum of its contents, which have no `#`, is
    -- received in acknowledgement mode as these contents, and what follows it is left unread. The
    -- assumptions are that a read of bytes that the device has sent comes back whole, that an
    -- acknowledgement can be sent, that the allocator grants the buffer, and that the loops are
    -- given three rounds more than the contents have bytes.
    pub receive_response-framed :
        (acks : Acknowledges service pending) (content rest : List ℕ) (c : Client S)
        → c.noack_mode ≡ false
        → HasNoHash content
        → length content + 3 ≤ rounds
        → pending c.parent ≡ b'+' ∷ (framed content ++ rest)
        → (s' : S) × (debugserver_client_receive_response service rounds grants c
            ≡ ret (DebugserverError.success, some content, with_parent c s'))
          × (pending s' ≡ rest)
    unfolding checksum_hash
    receive_response-framed acks content rest c mode h enough e =
        let sum = debugserver_get_checksum_for_buffer content in
        receive_response-verdict acks content rest (encode_first sum) (encode_second sum) true c
          mode h enough (framed_valid content) e
