-- ===== src/Debugserver/Hex/Checksum.antt =====
-- A command carries the checksum that a response is checked for.
use libimobiledevice.Common.{
  ℕ, suc, ◌+◌, ◌-◌, ◌%◌, ◌/◌, ◌≡◌, ap, ◌∙◌, true, List, [], ◌∷◌, ◌++◌, Option, arith,
}
use libimobiledevice.Common.Bytes.{length, take, drop, length-append, take-append}
use libimobiledevice.Common.Run.{ret}
use libimobiledevice.Debugserver.Hex.{
  encode_first, encode_second, debugserver_get_checksum_for_buffer, char_at,
  debugserver_response_is_checksum_valid, checksum_hash, encoded_command,
  debugserver_format_command,
}
use libimobiledevice.Debugserver.Hex.RoundTrip.{hex2int-int2hex}

char_at-append : (xs ys : List ℕ) (n : ℕ) → char_at (length xs + n) (xs ++ ys) ≡ char_at n ys
char_at-append [] ys n = ap (λ k. char_at k ys) (omega arith)
char_at-append (x ∷ xs) ys n =
    let e : suc (length xs) + n ≡ suc (length xs + n) = omega arith in
    ap (λ k. char_at k (x ∷ (xs ++ ys))) e ∙ char_at-append xs ys n

-- The frame of some contents: what the device sends, and what a command is.
abbrev pub framed : List ℕ → List ℕ
framed content = b'$' ∷ (content ++ checksum_hash true content)

pub length-framed : (content : List ℕ) → length (framed content) ≡ length content + 4
unfolding checksum_hash
length-framed content = omega (arith, length-append content (checksum_hash true content))

pub framed_content :
    (content : List ℕ) → take (length (framed content) - 4) (drop 1 (framed content)) ≡ content
framed_content content =
    take-append content (checksum_hash true content) _ (omega (arith, length-framed content))

-- The frame of any contents has a valid checksum.
pub framed_valid :
    (content : List ℕ) → debugserver_response_is_checksum_valid (framed content) ≡ ret true
unfolding debugserver_response_is_checksum_valid checksum_hash encode_first encode_second
framed_valid content =
    let sum = debugserver_get_checksum_for_buffer content in
    let hash = checksum_hash true content in
    let size = length-framed content in
    let digit1 : char_at (length (framed content) - 2) (framed content) ≡ encode_first sum =
      ap (λ k. char_at k (framed content)) (omega arith) ∙ char_at-append (b'$' ∷ content) hash 1 in
    let digit2 : char_at (length (framed content) - 1) (framed content) ≡ encode_second sum =
      ap (λ k. char_at k (framed content)) (omega arith) ∙ char_at-append (b'$' ∷ content) hash 2 in
    ground (
      arith,
      size,
      framed_content content,
      digit1,
      digit2,
      hex2int-int2hex (sum / 16 % 16) (omega arith),
      hex2int-int2hex (sum % 16) (omega arith),
    )

-- Every command that debugserver_format_command makes with a checksum and the prefix `$`, with or
-- without arguments, passes the check that is made of responses.
format_command-valid :
    (command : List ℕ) (arguments : Option (List ℕ))
    → debugserver_response_is_checksum_valid
        (debugserver_format_command (b'$' ∷ []) command arguments true)
      ≡ ret true
unfolding debugserver_format_command
format_command-valid command arguments = framed_valid (encoded_command command arguments)
