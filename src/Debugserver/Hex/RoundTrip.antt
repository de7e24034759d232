-- ===== src/Debugserver/Hex/RoundTrip.antt =====
-- Hexadecimal text is decoded to what was encoded.
use libimobiledevice.Common.{ℕ, ◌%◌, ◌/◌, ◌<◌, ◌≡◌, ◌≢◌, refl, ap, ◌∙◌, List, [], ◌∷◌, ◌++◌, arith}
use libimobiledevice.Common.Run.{ret}
use libimobiledevice.Common.Tables.{agree_below→eq}
use libimobiledevice.Debugserver.Hex.{
  debugserver_hex2int, debugserver_int2hex, encode_first, encode_second, encode_digits,
  debugserver_encode_string, decode_pair, debugserver_decode_string, text_in,
}

abbrev pub AreBytes : List ℕ → Type 0
AreBytes [] = Unit {0}
AreBytes (b ∷ bs) = (b < 256) × AreBytes bs

decode_pair-encode : (b : ℕ) → b < 256 → decode_pair (encode_first b) (encode_second b) ≡ b
unfolding decode_pair encode_first encode_second debugserver_hex2int debugserver_int2hex
decode_pair-encode = agree_below→eq _ _ 256 refl

pub hex2int-int2hex : (d : ℕ) → d < 16 → debugserver_hex2int (debugserver_int2hex d) ≡ d
unfolding debugserver_hex2int debugserver_int2hex
hex2int-int2hex = agree_below→eq _ _ 16 refl

int2hex_not_zero : (d : ℕ) → debugserver_int2hex d ≢ 0
unfolding debugserver_int2hex
int2hex_not_zero d = ground arith

text_in-encode_digits :
    (s : List ℕ) → text_in (encode_digits s ++ (0 ∷ 0 ∷ 0 ∷ 0 ∷ [])) ≡ encode_digits s
unfolding text_in encode_digits encode_first encode_second
text_in-encode_digits [] = refl
text_in-encode_digits (b ∷ bs) =
    ground
      (arith, int2hex_not_zero (b / 16 % 16), int2hex_not_zero (b % 16), text_in-encode_digits bs)

decode_digits : (s : List ℕ) → AreBytes s → debugserver_decode_string (encode_digits s) ≡ ret s
unfolding debugserver_decode_string encode_digits
decode_digits [] h = refl
decode_digits (b ∷ bs) h = ground (arith, decode_pair-encode b h.0, decode_digits bs h.1)

-- Whatever bytes a text has, the text that debugserver_encode_string writes for it is decoded by
-- debugserver_decode_string to the same bytes.
decode_string-encode_string :
    (s : List ℕ)
    → AreBytes s
    → debugserver_decode_string (text_in (debugserver_encode_string s)) ≡ ret s
unfolding debugserver_encode_string
decode_string-encode_string s h =
    ap (λ t. debugserver_decode_string t) (text_in-encode_digits s) ∙ decode_digits s h
