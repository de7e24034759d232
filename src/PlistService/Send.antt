-- ===== src/PlistService/Send.antt =====
-- A property list that was sent is on the wire behind its length.
use libimobiledevice.Common.{
  ℕ, ◌^◌, ◌<◌, ◌≡◌, refl, sym, ap, ◌∙◌, Bool, List, [], ◌∷◌, ◌++◌, some, append_assoc, arith,
  if◌then◌else◌,
}
use libimobiledevice.Common.Run.{ret, >>=-eq-ret}
use libimobiledevice.Common.Bytes.{length, be32_bytes}
use libimobiledevice.Service.{ServiceError, Service, IsTransport}
use libimobiledevice.PlistService.{
  PlistServiceError, Codec, PlistClient, send_content, send_bytes, internal_plist_send,
}

-- The frame of some contents.
abbrev pub framed : List ℕ → List ℕ
framed content = be32_bytes (length content) ++ content

pub length-be32_bytes : (n : ℕ) → length (be32_bytes n) ≡ 4
unfolding be32_bytes
length-be32_bytes n = refl

-- The encoding that a call of internal_plist_send asks for.
abbrev pub encoded : {P : Type 0} → Codec P → Bool → P → List ℕ
encoded codec binary p = if binary then codec.to_bin p else codec.to_xml p

module _ {P S : Type 0} (codec : Codec P) (service : Service S) (log pending : S → List ℕ)
    (contract : IsTransport service log pending) where
  send_content_complete :
      (content : List ℕ) (s : S) (c' : PlistClient S)
      → 0 < length content
      → length content < 2 ^ 32
      → send_content codec service content 4 s ≡ ret (PlistServiceError.success, c')
      → (s' : S) × (c' ≡ some (some s')) × (log s' ≡ log s ++ content)
  unfolding send_content
  send_content_complete content s c' some_content small h =
      let (r, ran, rest) = >>=-eq-ret (service.send content s) _ h in
      let full : r.1 ≡ length content = ground (arith, rest) in
      let ok : r.0 ≡ ServiceError.success =
        contract.send_full content s r.0 r.1 r.2 some_content ran full in
      (
        r.2,
        ground (arith, rest),
        (contract.send_complete content s r.1 r.2 small (ran ∙ ap (λ e. ret (e, r.1, r.2)) ok)).1,
      )

  send_content-four :
      (content : List ℕ) (n : ℕ) (s : S) (c' : PlistClient S)
      → send_content codec service content n s ≡ ret (PlistServiceError.success, c')
      → n ≡ 4
  unfolding send_content
  send_content-four content n s c' h = ground (arith, h)

  send_bytes_complete :
      (content : List ℕ) (s : S) (c' : PlistClient S)
      → length content < 2 ^ 32
      → send_bytes codec service content s ≡ ret (PlistServiceError.success, c')
      → (s' : S) × (c' ≡ some (some s')) × (log s' ≡ log s ++ framed content)
  unfolding send_bytes
  send_bytes_complete [] s c' small h = absurd (ground arith)
  send_bytes_complete (b ∷ bs) s c' small h =
      let content = b ∷ bs in
      let prefix = be32_bytes (length content) in
      let size : length prefix ≡ 4 = length-be32_bytes (length content) in
      let (r, ran, rest) = >>=-eq-ret (service.send prefix s) _ h in
      let four : r.1 ≡ 4 = send_content-four content r.1 r.2 c' rest in
      let ok : r.0 ≡ ServiceError.success =
        contract.send_full prefix s r.0 r.1 r.2 (omega (arith, size)) ran (four ∙ sym size) in
      let first : log r.2 ≡ log s ++ prefix =
        (contract.send_complete prefix s r.1 r.2 (omega (arith, size))
          (ran ∙ ap (λ e. ret (e, r.1, r.2)) ok)).1 in
      let (s', gone, out) =
        send_content_complete content r.2 c' (omega arith) small (rw four at rest) in
      (s', gone, out ∙ ap (λ t. t ++ content) first ∙ append_assoc (log s) prefix content)

  -- When internal_plist_send reports success, in binary or in XML, what left for the device is the
  -- length of the encoded property list in four bytes, the highest first, and then the encoding,
  -- and nothing else. The service is assumed to keep its contract, and the encoding to be shorter
  -- than 2 ^ 32. (The code of service_send is not looked at, only its counts; by the contract they
  -- are enough.)
  pub internal_plist_send_complete :
      (s : S) (p : P) (binary : Bool) (c' : PlistClient S)
      → length (encoded codec binary p) < 2 ^ 32
      → internal_plist_send codec service (some (some s)) (some p) binary
        ≡ ret (PlistServiceError.success, c')
      → (s' : S) × (c' ≡ some (some s')) × (log s' ≡ log s ++ framed (encoded codec binary p))
  unfolding internal_plist_send
  internal_plist_send_complete s p binary c' small h =
      send_bytes_complete (encoded codec binary p) s c' small h
