-- ===== src/Debugserver/Response/Body.antt =====
-- The loop that reads a response takes it up to its checksum.
use libimobiledevice.Common.{
  ℕ, zero, suc, ◌+◌, ◌<◌, ◌≡◌, ◌≢◌, refl, sym, ap, ◌∙◌, Bool, true, false, ◌||◌, List, [], ◌∷◌,
  ◌++◌, append-nil, append_assoc, arith, leb, ◌==◌, if◌then◌else◌, inl, inr, Bool-cases,
}
use libimobiledevice.Common.Bytes.{length}
use libimobiledevice.Common.Run.{ret}
use libimobiledevice.Service.{Service, Reliable}
use libimobiledevice.Debugserver.{DebugserverError, Client}
use libimobiledevice.Debugserver.Response.{
  with_parent, debugserver_client_receive_with_timeout, debugserver_client_receive,
  debugserver_client_receive_internal_char, receive_body,
}

-- What is on the wire for some contents and two characters in the place of their checksum.
abbrev pub response_of : List ℕ → ℕ → ℕ → List ℕ
response_of content x y = b'$' ∷ (content ++ (b'#' ∷ x ∷ y ∷ []))

-- No byte is `#`.
abbrev pub HasNoHash : List ℕ → Type 0
HasNoHash [] = Unit {0}
HasNoHash (b ∷ bs) = (b ≢ b'#') × HasNoHash bs

three :
    (x y : ℕ) (buffer : List ℕ)
    → ((buffer ++ (b'#' ∷ [])) ++ (x ∷ [])) ++ (y ∷ []) ≡ buffer ++ (b'#' ∷ x ∷ y ∷ [])
three x y [] = refl
three x y (b ∷ bs) = ap (◌∷◌ b) (three x y bs)

module _ {S : Type 0} (service : Service S) (pending : S → List ℕ)
    (reliable : Reliable service pending) where
  -- A character that has been sent is received.
  pub receive_char :
      (rounds b : ℕ) (rest : List ℕ) (c : Client S)
      → 0 < rounds
      → pending c.parent ≡ b ∷ rest
      → (s' : S) × (debugserver_client_receive_internal_char service rounds c
          ≡ ret (DebugserverError.success, b, with_parent c s'))
        × (pending s' ≡ rest)
  unfolding debugserver_client_receive_internal_char debugserver_client_receive
      debugserver_client_receive_with_timeout
  receive_char zero b rest c pos e = absurd (omega arith)
  receive_char (suc f) b rest c pos e =
      let (s', got, left) =
        reliable.deliver 1 c.receive_loop_timeout c.parent (b ∷ []) rest e refl (omega arith) in
      (s', ground (arith, got), left)

  module _ (rounds : ℕ) (grants : ℕ → Bool) (pos : 0 < rounds)
      (granted : (n : ℕ) → grants n ≡ true) where
    -- A round of the loop takes one character, in a buffer that is large enough then.
    body_step :
        (f left b : ℕ) (in_checksum : Bool) (buffer rest : List ℕ) (capacity : ℕ) (c : Client S)
        → pending c.parent ≡ b ∷ rest
        → let begun = in_checksum || b == b'#' in
          (s' : S) × (capacity' : ℕ) × (receive_body service rounds grants
              (suc f)
              (suc left)
              in_checksum
              buffer
              capacity
              c
            ≡ receive_body service rounds grants f
                (if begun then left else suc left)
                begun
                (buffer ++ (b ∷ []))
                capacity'
                (with_parent c s'))
          × (pending s' ≡ rest)
    unfolding receive_body
    body_step f left b in_checksum buffer rest capacity c e =
        let (s', got, there) = receive_char rounds b rest c pos e in
        elim (Bool-cases (leb capacity (length buffer + 1))) [
          | inl full ↦
              (s', capacity + 1024, ground (arith, got, full, granted (capacity + 1024)), there)
          | inr room ↦ (s', capacity, ground (arith, got, room), there)
        ]

    -- The loop takes contents without `#` and goes on behind them.
    body_content :
        (content : List ℕ) (f left : ℕ) (buffer rest : List ℕ) (capacity : ℕ) (c : Client S)
        → HasNoHash content
        → pending c.parent ≡ content ++ rest
        → (s' : S) × (capacity' : ℕ) × (receive_body service rounds grants
              (length content + f)
              (suc left)
              false
              buffer
              capacity
              c
            ≡ receive_body service rounds grants f
                (suc left)
                false
                (buffer ++ content)
                capacity'
                (with_parent c s'))
          × (pending s' ≡ rest)
    body_content [] f left buffer rest capacity c h e = (
      c.parent,
      capacity,
      ap (λ n. receive_body service rounds grants n (suc left) false buffer capacity c)
            (omega arith)
          ∙ ap (λ t. receive_body service rounds grants f (suc left) false t capacity c)
              (sym (append-nil buffer)),
      e,
    )
    body_content (b ∷ bs) f left buffer rest capacity c h e =
        let (s1, cap1, step, there) =
          body_step (length bs + f) left b false buffer (bs ++ rest) capacity c e in
        let (s2, cap2, run, there2) =
          body_content bs f left (buffer ++ (b ∷ [])) rest cap1 (with_parent c s1) h.1 there in
        let no_hash : (b == b'#') ≡ false = ground (arith, h.0) in
        let one : suc (length bs) + f ≡ suc (length bs + f) = omega arith in
        (
          s2,
          cap2,
          ap (λ n. receive_body service rounds grants n (suc left) false buffer capacity c) one
              ∙ rw no_hash at step
              ∙ run
              ∙ ap
                  (λ t.
                    receive_body service rounds grants f (suc left) false t cap2 (with_parent c s2))
                  (append_assoc buffer (b ∷ []) bs),
          there2,
        )

    body_done :
        (f : ℕ) (buffer : List ℕ) (capacity : ℕ) (c : Client S)
        → receive_body service rounds grants f 0 true buffer capacity c
          ≡ ret (DebugserverError.success, buffer, c)
    unfolding receive_body
    body_done zero buffer capacity c = refl
    body_done (suc f) buffer capacity c = refl

    -- The `#` and the two characters behind it end the loop.
    body_checksum :
        (f x y : ℕ) (buffer rest : List ℕ) (capacity : ℕ) (c : Client S)
        → pending c.parent ≡ b'#' ∷ x ∷ y ∷ rest
        → (s' : S) × (receive_body service rounds grants
              (suc (suc (suc f)))
              3
              false
              buffer
              capacity
              c
            ≡ ret (DebugserverError.success, buffer ++ (b'#' ∷ x ∷ y ∷ []), with_parent c s'))
          × (pending s' ≡ rest)
    body_checksum f x y buffer rest capacity c e =
        let (s1, cap1, step1, there1) =
          body_step (suc (suc f)) 2 b'#' false buffer (x ∷ y ∷ rest) capacity c e in
        let (s2, cap2, step2, there2) =
          body_step (suc f) 1 x true (buffer ++ (b'#' ∷ [])) (y ∷ rest) cap1 (with_parent c s1)
            there1 in
        let (s3, cap3, step3, there3) =
          body_step f 0 y true ((buffer ++ (b'#' ∷ [])) ++ (x ∷ [])) rest cap2 (with_parent c s2)
            there2 in
        let end = ((buffer ++ (b'#' ∷ [])) ++ (x ∷ [])) ++ (y ∷ []) in
        (
          s3,
          step1
              ∙ step2
              ∙ step3
              ∙ body_done f end cap3 (with_parent c s3)
              ∙ ap (λ t. ret (DebugserverError.success, t, with_parent c s3)) (three x y buffer),
          there3,
        )

    pub body_response :
        (content rest : List ℕ) (x y f : ℕ) (c : Client S)
        → HasNoHash content
        → pending c.parent ≡ content ++ (b'#' ∷ x ∷ y ∷ rest)
        → (s' : S) × (receive_body service rounds grants
              (length content + suc (suc (suc f)))
              3
              false
              (b'$' ∷ [])
              1024
              c
            ≡ ret (DebugserverError.success, response_of content x y, with_parent c s'))
          × (pending s' ≡ rest)
    body_response content rest x y f c h e =
        let (s1, cap1, run, there) =
          body_content content (suc (suc (suc f))) 2 (b'$' ∷ []) (b'#' ∷ x ∷ y ∷ rest) 1024 c h e in
        let (s2, done, there2) =
          body_checksum f x y (b'$' ∷ content) rest cap1 (with_parent c s1) there in
        (s2, run ∙ done, there2)
