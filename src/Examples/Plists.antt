-- ===== src/Examples/Plists.antt =====
-- The theorems on property lists over a byte service.
use libimobiledevice.Common.{
  ℕ, ◌+◌, ◌-◌, ◌≡◌, refl, Bool, true, false, List, [], ◌∷◌, ◌++◌, Option, none, some, arith,
}
use libimobiledevice.Common.Bytes.{drop, be32_bytes}
use libimobiledevice.Common.Run.{ret}
use libimobiledevice.Service.{ServiceError, Service}
use libimobiledevice.PlistService.{
  PlistServiceError, Codec, bin_magic, xml_magic, send_content, send_bytes, internal_plist_send,
}
use libimobiledevice.PlistService.Send.{framed, encoded, internal_plist_send_complete}
use libimobiledevice.PlistService.Hang.{Flowing}
use libimobiledevice.Examples.Wire.{Wire, out_of, incoming_of, stream, stream-IsTransport}
use libimobiledevice.Examples.Replies.{wire}

-- Property lists that are one number, which both formats put behind their magic.
abbrev first : List ℕ → Option ℕ
first [] = none
first (n ∷ ns) = some n

abbrev less32 : Option ℕ → Option ℕ
less32 none = none
less32 (some n) = some (n - 32)

abbrev pub codec : Codec ℕ
codec = record {
  to_bin = λ n. bin_magic ++ (n ∷ []);
  to_xml = λ n. xml_magic ++ ((n + 32) ∷ []);
  from_bin = λ bs. first (drop 8 bs);
  from_xml = λ bs. less32 (first (drop 5 bs));
}

abbrev framed_wire : Wire
framed_wire = wire [] (framed (encoded codec false 5) ++ (1 ∷ []))

abbrev sent_wire : Wire
sent_wire = wire (framed (encoded codec true 5)) []

send_number :
    internal_plist_send codec stream (some (some (wire [] []))) (some 5) true
    ≡ ret (PlistServiceError.success, some (some sent_wire))
unfolding internal_plist_send send_bytes send_content be32_bytes
send_number = refl

internal_plist_send_complete_example :
    (s' : Wire) × (some (some sent_wire) ≡ some (some s'))
    × (s'.out ≡ [] ++ framed (encoded codec true 5))
internal_plist_send_complete_example =
    internal_plist_send_complete codec stream out_of incoming_of stream-IsTransport (wire [] []) 5
      true (some (some sent_wire)) (omega arith) send_number

-- A connection that gives the length 9, and then successes without bytes. Its state says
-- whether the length has been read.
abbrev dry : Service Bool
dry = record {
  send = λ d s. ret (ServiceError.unknown_error, 0, s);
  receive_with_timeout = λ len millis s.
      ret (ServiceError.success, elim s [ true ↦ [] | false ↦ 0 ∷ 0 ∷ 0 ∷ 9 ∷ [] ], true);
}

-- Each read gives a zero, whatever its length.
abbrev trickle : Service Bool
trickle = record {
  send = λ d s. ret (ServiceError.unknown_error, 0, s);
  receive_with_timeout = λ len millis s. ret (ServiceError.success, 0 ∷ [], s);
}

trickle-Flowing : Flowing trickle
trickle-Flowing = record {
  returns = λ len millis s. tt;
  progress = λ len millis s bs s' h. ground arith;
}
