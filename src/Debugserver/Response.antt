-- ===== src/Debugserver/Response.antt =====
-- src/debugserver.c: sending, the reception of a response, and commands. `rounds` bounds the loops
-- that wait for the device, `grants` is the allocator.
pub mod Body
pub mod Receive
use libimobiledevice.Common.{
  ℕ, zero, suc, ◌+◌, ◌-◌, Bool, true, false, not, ◌&&◌, ◌||◌, List, [], ◌∷◌, ◌++◌, Option, none,
  some, ltb, leb, ◌==◌, if◌then◌else◌,
}
use libimobiledevice.Common.Bytes.{length, take, drop, bytes_eq, codes}
use libimobiledevice.Common.Run.{Run, ret, hangs, ◌>>=◌}
use libimobiledevice.Service.{Service}
use libimobiledevice.Debugserver.{DebugserverError, debugserver_error, Client}
use libimobiledevice.Debugserver.Hex.{
  debugserver_response_is_checksum_valid, debugserver_format_command,
}

abbrev pub is_success : DebugserverError → Bool
is_success DebugserverError.success = true
is_success _ = false

abbrev pub is_timeout : DebugserverError → Bool
is_timeout DebugserverError.timeout = true
is_timeout _ = false

-- The first of the bytes that came.
abbrev pub first_of : List ℕ → ℕ
first_of [] = 0
first_of (b ∷ bs) = b

-- The bytes of the response between `$` and `#`.
abbrev pub content_of : List ℕ → List ℕ
content_of buffer = take (length buffer - 4) (drop 1 buffer)

module _ {S : Type 0} where
  abbrev pub with_parent : Client S → S → Client S
  with_parent c s = record c { parent = s }

  -- On a client that is not NULL.
  unfoldable pub debugserver_client_set_ack_mode : Bool → Client S → Client S
  debugserver_client_set_ack_mode enabled c = record c { noack_mode = not enabled }

module _ {S : Type 0} (service : Service S) where
  -- Of data that is there; the code and `*sent`.
  unfoldable pub debugserver_client_send : List ℕ → Client S → Run (DebugserverError × ℕ × Client S)
  debugserver_client_send [] c = ret (DebugserverError.invalid_arg, 0, c)
  debugserver_client_send (b ∷ bs) c =
      service.send (b ∷ bs) c.parent >>= λ r. ret (debugserver_error r.0, r.1, with_parent c r.2)

  -- A count that is not 0 makes any code a success.
  unfoldable pub debugserver_client_receive_with_timeout :
      ℕ → ℕ → Client S → Run (DebugserverError × List ℕ × Client S)
  debugserver_client_receive_with_timeout size millis c =
      if size == 0
      then ret (DebugserverError.invalid_arg, [], c)
      else service.receive_with_timeout size millis c.parent >>= λ r.
          let c' = with_parent c r.2 in
          if ltb 0 (length r.1)
          then ret (DebugserverError.success, r.1, c')
          else ret (debugserver_error r.0, [], c')

  -- Once more after a time-out, while there is a callback that does not cancel.
  unfoldable pub debugserver_client_receive :
      ℕ → ℕ → Client S → Run (DebugserverError × List ℕ × Client S)
  debugserver_client_receive zero size c = hangs
  debugserver_client_receive (suc f) size c =
      debugserver_client_receive_with_timeout size c.receive_loop_timeout c >>= λ r.
      elim (is_timeout r.0) [
        | false ↦ ret r
        | true ↦ elim r.2.cancel_receive [
          | none ↦ ret r
          | some cancel ↦
              let q = cancel r.2.parent in
              elim q.0 [
                | true ↦ ret (r.0, r.1, with_parent r.2 q.1)
                | false ↦ debugserver_client_receive f size (with_parent r.2 q.1)
              ]
        ]
      ]

  unfoldable pub debugserver_client_receive_internal_char :
      ℕ → Client S → Run (DebugserverError × ℕ × Client S)
  debugserver_client_receive_internal_char rounds c = debugserver_client_receive rounds 1 c >>= λ r.
      if not (is_success r.0)
      then ret (r.0, first_of r.1, r.2)
      else if not (length r.1 == 1)
      then ret (DebugserverError.unknown_error, first_of r.1, r.2)
      else ret (DebugserverError.success, first_of r.1, r.2)

  -- The loop that reads up to the checksum: how many characters of it are left, whether it has
  -- begun, the buffer and its capacity.
  unfoldable pub receive_body :
      ℕ
      → (ℕ → Bool)
      → ℕ
      → ℕ
      → Bool
      → List ℕ
      → ℕ
      → Client S
      → Run (DebugserverError × List ℕ × Client S)
  receive_body rounds grants zero left in_checksum buffer capacity c =
      if left == 0 then ret (DebugserverError.success, buffer, c) else hangs
  receive_body rounds grants (suc f) left in_checksum buffer capacity c = elim (left == 0) [
    | true ↦ ret (DebugserverError.success, buffer, c)
    | false ↦ debugserver_client_receive_internal_char rounds c >>= λ r. elim (is_success r.0) [
      | false ↦ ret (r.0, buffer, r.2)
      | true ↦
          let begun = in_checksum || r.1 == b'#' in
          let left' = if begun then left - 1 else left in
          elim (leb capacity (length buffer + 1)) [
            | false ↦ receive_body rounds grants f left' begun (buffer ++ (r.1 ∷ [])) capacity r.2
            | true ↦ elim (grants (capacity + 1024)) [
              | false ↦ ret (DebugserverError.unknown_error, buffer, r.2)
              | true ↦
                  receive_body rounds grants f left' begun (buffer ++ (r.1 ∷ [])) (capacity + 1024)
                    r.2
            ]
          ]
    ]
  ]

  -- The code, `*response` with `none` for NULL, the client.
  abbrev pub Answer : Type 0
  Answer = Run (DebugserverError × Option (List ℕ) × Client S)

  -- After the checksum; the code of the acknowledgement is not looked at.
  unfoldable pub finish_response : List ℕ → Client S → Answer
  finish_response buffer c =
      if c.noack_mode
      then ret (DebugserverError.success, some (content_of buffer), c)
      else debugserver_response_is_checksum_valid buffer >>= λ valid.
          if valid
          then (debugserver_client_send (b'+' ∷ []) c >>= λ r.
              ret (DebugserverError.success, some (content_of buffer), r.2))
          else debugserver_client_send (b'-' ∷ []) c >>= λ r.
              ret (DebugserverError.response_error, none, r.2)

  -- After the prefix.
  unfoldable pub receive_rest : ℕ → (ℕ → Bool) → Client S → Answer
  receive_rest rounds grants c =
      receive_body rounds grants rounds 3 false (b'$' ∷ []) 1024 c >>= λ r.
      if is_success r.0 then finish_response r.1 r.2 else ret (r.0, none, r.2)

  -- From the prefix on; another character ends the reception with the code of its read, a success.
  unfoldable pub receive_prefix : ℕ → (ℕ → Bool) → Client S → Answer
  receive_prefix rounds grants c = debugserver_client_receive_internal_char rounds c >>= λ r.
      if not (is_success r.0)
      then ret (r.0, none, r.2)
      else if r.1 == b'$'
      then receive_rest rounds grants r.2
      else ret (DebugserverError.success, none, r.2)

  -- The client and `response` are not NULL.
  unfoldable pub debugserver_client_receive_response : ℕ → (ℕ → Bool) → Client S → Answer
  debugserver_client_receive_response rounds grants c =
      if c.noack_mode
      then receive_prefix rounds grants c
      else debugserver_client_receive_internal_char rounds c >>= λ r.
          if not (is_success r.0)
          then ret (r.0, none, r.2)
          else if r.1 == b'+'
          then receive_prefix rounds grants r.2
          else if r.1 == b'$'
          then receive_rest rounds grants r.2
          else ret (DebugserverError.success, none, r.2)

  -- A command has a name and arguments, which are put together, and are NULL where there are none.
  unfoldable pub debugserver_client_send_command :
      ℕ → (ℕ → Bool) → List ℕ → Option (List ℕ) → Client S → Answer
  debugserver_client_send_command rounds grants name arguments c =
      debugserver_client_send (debugserver_format_command (b'$' ∷ []) name arguments true) c
      >>= λ s.
          if not (is_success s.0)
          then ret (s.0, none, s.2)
          else debugserver_client_receive_response rounds grants s.2 >>= λ r.
              if is_success r.0 && bytes_eq (take 16 name) (codes "QStartNoAckMode")
              then ret (r.0, r.1, debugserver_client_set_ack_mode false r.2)
              else ret r
