-- ===== src/Examples/Debug.antt =====
-- The theorems on the debug server client.
use libimobiledevice.Common.{ℕ, ◌≡◌, refl, true, false, List, [], ◌∷◌, ◌++◌, none, some, arith}
use libimobiledevice.Common.Run.{ret}
use libimobiledevice.Service.{ServiceError}
use libimobiledevice.Debugserver.{DebugserverError, Client}
use libimobiledevice.Debugserver.Hex.{
  debugserver_hex2int, debugserver_get_checksum_for_buffer, checksum_from, widen,
  debugserver_response_is_checksum_valid,
}
use libimobiledevice.Debugserver.Hex.Checksum.{framed}
use libimobiledevice.Debugserver.Response.{debugserver_client_receive_response, with_parent}
use libimobiledevice.Debugserver.Response.Body.{response_of}
use libimobiledevice.Debugserver.Response.Receive.{
  Acknowledges, receive_response-verdict, receive_response-framed,
}
use libimobiledevice.Examples.Wire.{Wire, incoming_of, stream, stream-Reliable}
use libimobiledevice.Examples.Replies.{wire}

stream-Acknowledges : Acknowledges stream incoming_of
stream-Acknowledges = record {
  send_ack = λ b s. (ServiceError.success, 1, record s { out = s.out ++ (b ∷ []) }, refl, refl);
}

abbrev debugger : List ℕ → Client Wire
debugger incoming = record {
  parent = wire [] incoming;
  noack_mode = false;
  cancel_receive = none;
  receive_loop_timeout = 1000;
}

-- "OK"
abbrev ok : List ℕ
ok = 79 ∷ 75 ∷ []

receive_response-framed_example :
    (s' : Wire) × (debugserver_client_receive_response stream 5
        (λ n. true)
        (debugger (b'+' ∷ (framed ok ++ (7 ∷ []))))
      ≡ ret (
        DebugserverError.success,
        some ok,
        with_parent (debugger (b'+' ∷ (framed ok ++ (7 ∷ [])))) s',
      ))
    × (s'.incoming ≡ 7 ∷ [])
receive_response-framed_example =
    receive_response-framed stream incoming_of stream-Reliable 5 (λ n. true) (omega arith)
      (λ n. refl) stream-Acknowledges ok (7 ∷ []) (debugger (b'+' ∷ (framed ok ++ (7 ∷ [])))) refl
      ((omega arith), ((omega arith), tt)) (omega arith) refl

-- The checksum of "OK" is 9a.
damaged : debugserver_response_is_checksum_valid (response_of ok b'9' b'b') ≡ ret false
unfolding debugserver_response_is_checksum_valid debugserver_hex2int checksum_from widen
    debugserver_get_checksum_for_buffer
damaged = refl

abbrev damaged_debugger : Client Wire
damaged_debugger = debugger (b'+' ∷ (response_of ok b'9' b'b' ++ []))

receive_response-verdict_example :
    (s' : Wire) × (debugserver_client_receive_response stream 5 (λ n. true) damaged_debugger
      ≡ ret (DebugserverError.response_error, none, with_parent damaged_debugger s'))
    × (s'.incoming ≡ [])
receive_response-verdict_example =
    receive_response-verdict stream incoming_of stream-Reliable 5 (λ n. true) (omega arith)
      (λ n. refl) stream-Acknowledges ok [] b'9' b'b' false damaged_debugger refl
      ((omega arith), ((omega arith), tt)) (omega arith) damaged refl
