-- ===== src/Examples/Buffers.antt =====
-- The theorems on the buffer of an AFC client, and on strings and dictionaries in replies.
use libimobiledevice.Common.{◌≤◌, ◌≡◌, refl, true, List, [], ◌∷◌, ◌++◌, some, arith}
use libimobiledevice.Common.Run.{ret}
use libimobiledevice.Afc.Client.{Client, IsSound, clear_bit3, afc_check_packet_buffer}
use libimobiledevice.Afc.Client.Buffer.{afc_check_packet_buffer-IsSound}
use libimobiledevice.Afc.Strings.{Text, make_strings_list}
use libimobiledevice.Afc.Strings.Split.{flat, make_strings_list-flat}
use libimobiledevice.Afc.Strings.Dictionary.{Pairs}
use libimobiledevice.Examples.Wire.{Wire}
use libimobiledevice.Examples.Replies.{client, client-IsSound, wire}

abbrev small_client : Client Wire
small_client = client 0 (wire [] [])

abbrev grown : Client Wire
grown = record small_client { packet_extra = 2008; capacity = 2008 }

grows : afc_check_packet_buffer (λ n. true) 2000 small_client ≡ (true, grown)
unfolding afc_check_packet_buffer clear_bit3
grows = refl

afc_check_packet_buffer-IsSound_example :
    IsSound grown
    × (2000 ≤ 2008)
    × (grown.afc_packet ≡ small_client.afc_packet)
    × (grown.parent ≡ small_client.parent)
    × (grown.mutex ≡ small_client.mutex)
afc_check_packet_buffer-IsSound_example =
    afc_check_packet_buffer-IsSound (λ n. true) 2000 small_client grown (omega arith)
      (client-IsSound 0 (wire [] [])) grows

abbrev believing : Client Wire
believing = record small_client { packet_extra = 2008 }

-- "ab", "" and "c"; and a rest that is not terminated.
abbrev texts : List Text
texts = (97 ∷ 98 ∷ []) ∷ [] ∷ (99 ∷ []) ∷ []

make_strings_list-flat_example : make_strings_list (flat texts ++ (100 ∷ [])) ≡ ret (some texts)
make_strings_list-flat_example =
    make_strings_list-flat texts (100 ∷ [])
      ((omega arith, (omega arith, tt)), (tt, ((omega arith, tt), tt))) (omega arith, tt) (λ e. cc)

-- "a" is "12", and "b" is "x".
abbrev pairs : Pairs
pairs = ((97 ∷ []), (49 ∷ 50 ∷ [])) ∷ ((98 ∷ []), (120 ∷ [])) ∷ []
