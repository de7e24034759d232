-- ===== src/PlistService/Receive.antt =====
-- What internal_plist_send puts on a connection, internal_plist_receive_timeout takes off it.
use libimobiledevice.Common.{ℕ, ◌<◌, ◌≡◌, true, false, List, [], ◌∷◌, some}
use libimobiledevice.Common.Bytes.{length, take, bytes_eq}
use libimobiledevice.Service.{Service}
use libimobiledevice.PlistService.{Codec, bin_magic, xml_magic, is_invalid}

-- No byte but the last is a control character that XML does not allow.
abbrev pub IsClean : List ℕ → Type 0
IsClean [] = Unit {0}
IsClean (b ∷ []) = Unit {0}
IsClean (b ∷ c ∷ bs) = (is_invalid b ≡ false) × IsClean (c ∷ bs)

-- What is documented of libplist: encodings are not empty, start as the format says, and are read
-- back. In an XML encoding there are no control characters that XML does not allow.
pub record IsCodec {P : Type 0} (codec : Codec P) : Type 0 where
  pub bin_long : (p : P) → 8 < length (codec.to_bin p)
  pub bin_starts : (p : P) → bytes_eq (take 8 (codec.to_bin p)) bin_magic ≡ true
  pub bin_back : (p : P) → codec.from_bin (codec.to_bin p) ≡ some p
  pub xml_long : (p : P) → 5 < length (codec.to_xml p)
  pub xml_starts : (p : P) → bytes_eq (take 5 (codec.to_xml p)) xml_magic ≡ true
  pub xml_no_bin : (p : P) → bytes_eq (take 8 (codec.to_xml p)) bin_magic ≡ false
  pub xml_clean : (p : P) → IsClean (codec.to_xml p)
  pub xml_back : (p : P) → codec.from_xml (codec.to_xml p) ≡ some p
