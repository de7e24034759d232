-- ===== src/Debugserver/Hex.antt =====
-- src/debugserver.c: hexadecimal text, checksums, and the form of a command. A char is a byte from
-- 0 to 255; where the source uses its sign, that is written out.
pub mod RoundTrip
pub mod Checksum
use Prim.Native.Nat.{bit_or}
use libimobiledevice.Common.{
  ℕ, zero, suc, ◌+◌, ◌-◌, ◌*◌, ◌/◌, ◌%◌, ◌^◌, Bool, true, false, ◌&&◌, List, [], ◌∷◌, ◌++◌, Option,
  none, some, ltb, leb, ◌==◌, if◌then◌else◌,
}
use libimobiledevice.Common.Bytes.{length, take, drop}
use libimobiledevice.Common.Run.{Run, ret, faults}

-- A character that is no hexadecimal digit stands for itself.
unfoldable pub debugserver_hex2int : ℕ → ℕ
debugserver_hex2int c =
    if leb b'0' c && leb c b'9'
    then c - b'0'
    else if leb b'a' c && leb c b'f'
    then 10 + c - b'a'
    else if leb b'A' c && leb c b'F'
    then 10 + c - b'A'
    else c

-- "0123456789ABCDEF"[x]
unfoldable pub debugserver_int2hex : ℕ → ℕ
debugserver_int2hex x = if ltb x 10 then b'0' + x else b'A' + (x - 10)

-- DEBUGSERVER_HEX_ENCODE_FIRST_BYTE and _SECOND_BYTE
unfoldable pub encode_first : ℕ → ℕ
encode_first v = debugserver_int2hex (v / 16 % 16)

unfoldable pub encode_second : ℕ → ℕ
encode_second v = debugserver_int2hex (v % 16)

-- The loop of debugserver_encode_string.
unfoldable pub encode_digits : List ℕ → List ℕ
encode_digits [] = []
encode_digits (b ∷ bs) = encode_first b ∷ encode_second b ∷ encode_digits bs

-- The buffer has room for a checksum, and a zero, which are all zeros.
unfoldable pub debugserver_encode_string : List ℕ → List ℕ
debugserver_encode_string s = encode_digits s ++ (0 ∷ 0 ∷ 0 ∷ 0 ∷ [])

-- What two characters are decoded to, as the char that is stored.
unfoldable pub decode_pair : ℕ → ℕ → ℕ
decode_pair a b = bit_or (debugserver_hex2int a * 16) (debugserver_hex2int b) % 256

-- The bytes before the terminator. After an odd number of characters one is read past the end.
unfoldable pub debugserver_decode_string : List ℕ → Run (List ℕ)
debugserver_decode_string [] = ret []
debugserver_decode_string (a ∷ []) = faults
debugserver_decode_string (a ∷ b ∷ bs) = elim (debugserver_decode_string bs) [
  | ret t ↦ ret (decode_pair a b ∷ t)
  | m ↦ m
]

-- A char as it is added to a uint32_t: a negative one is extended by its sign.
unfoldable pub widen : ℕ → ℕ
widen b = if ltb b 128 then b else b + (2 ^ 32 - 256)

-- debugserver_get_checksum_for_buffer, from a sum on.
unfoldable pub checksum_from : ℕ → List ℕ → ℕ
checksum_from sum [] = sum
checksum_from sum (b ∷ bs) = checksum_from ((sum + widen b) % 2 ^ 32) bs

unfoldable pub debugserver_get_checksum_for_buffer : List ℕ → ℕ
debugserver_get_checksum_for_buffer buffer = checksum_from 0 buffer

abbrev pub char_at : ℕ → List ℕ → ℕ
char_at n [] = 0
char_at zero (b ∷ bs) = b
char_at (suc n) (b ∷ bs) = char_at n bs

-- The response is `$`, contents, `#` and two digits; on less the length of its contents wraps
-- around, and the source reads past the buffer.
unfoldable pub debugserver_response_is_checksum_valid : List ℕ → Run Bool
debugserver_response_is_checksum_valid response =
    let size = length response in
    let sum = debugserver_get_checksum_for_buffer (take (size - 4) (drop 1 response)) in
    if ltb size 4
    then faults
    else ret (
        (debugserver_hex2int (char_at (size - 2) response) == sum / 16 % 16)
        && (debugserver_hex2int (char_at (size - 1) response) == sum % 16))

-- The text in a buffer, up to its zero.
unfoldable pub text_in : List ℕ → List ℕ
text_in [] = []
text_in (b ∷ bs) = if b == 0 then [] else b ∷ text_in bs

-- `#` and two digits.
unfoldable pub checksum_hash : Bool → List ℕ → List ℕ
checksum_hash false content = b'#' ∷ b'0' ∷ b'0' ∷ []
checksum_hash true content =
    let sum = debugserver_get_checksum_for_buffer content in
    b'#' ∷ encode_first sum ∷ encode_second sum ∷ []

-- The command's name and its arguments in hexadecimal, if there are any.
unfoldable pub encoded_command : List ℕ → Option (List ℕ) → List ℕ
encoded_command command none = command
encoded_command command (some arguments) = command ++ text_in (debugserver_encode_string arguments)

-- The text that is sent; its length is `*size`.
unfoldable pub debugserver_format_command : List ℕ → List ℕ → Option (List ℕ) → Bool → List ℕ
debugserver_format_command prefix command arguments calculate_checksum =
    let content = encoded_command command arguments in
    prefix ++ (content ++ checksum_hash calculate_checksum content)
