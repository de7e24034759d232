-- ===== src/Examples/Wire.antt =====
-- Byte services over two byte streams, one in each direction.
use libimobiledevice.Common.{ℕ, ◌≤◌, ◌≡◌, refl, sym, List, [], ◌++◌, arith, leb, if◌then◌else◌}
use libimobiledevice.Common.Run.{ret}
use libimobiledevice.Common.Bytes.{
  length, take, drop, length-take-le, take-append-drop, take-append, drop-append, length-append,
}
use libimobiledevice.Service.{ServiceError, Service, IsTransport, Reliable}

-- What has gone out, and what the device has sent.
pub record Wire : Type 0 where
  pub out : List ℕ
  pub incoming : List ℕ

abbrev pub out_of : Wire → List ℕ
out_of w = w.out

abbrev pub incoming_of : Wire → List ℕ
incoming_of w = w.incoming

-- Sends everything; reads what was asked for if it is there, and times out otherwise.
abbrev pub stream : Service Wire
stream = record {
  send = λ d w. ret (ServiceError.success, length d, record w { out = w.out ++ d });
  receive_with_timeout = λ len millis w.
      if leb len (length w.incoming)
      then ret
          (ServiceError.success, take len w.incoming, record w { incoming = drop len w.incoming })
      else ret (ServiceError.timeout, [], w);
}

stream_bounded :
    (len : ℕ) (w : Wire) (e : ServiceError) (bs : List ℕ) (w' : Wire)
    → stream.receive_with_timeout len 0 w ≡ ret (e, bs, w')
    → (length bs ≤ len) × (w.incoming ≡ bs ++ w'.incoming)
stream_bounded len w e bs w' h =
    ground (arith, length-take-le len w.incoming, take-append-drop len w.incoming)

pub stream-IsTransport : IsTransport stream out_of incoming_of
stream-IsTransport = record {
  send_complete = λ d w n w' small h. (ground arith, ground arith);
  send_full = λ d w e n w' k h full. ground arith;
  receive_bounded = λ len millis w e bs w' h. (stream_bounded len w e bs w' h).0;
  receive_next = λ len millis w e bs w' h s. (stream_bounded len w e bs w' h).1;
}

stream_deliver :
    (len : ℕ) (w : Wire) (front rest : List ℕ)
    → w.incoming ≡ front ++ rest
    → length front ≡ len
    → (w' : Wire) × (stream.receive_with_timeout len 0 w ≡ ret (ServiceError.success, front, w'))
      × (w'.incoming ≡ rest)
stream_deliver len w front rest e k = (
  record w { incoming = rest },
  ground (
    arith,
    take-append front rest len (sym k),
    drop-append front rest len (sym k),
    length-append front rest,
  ),
  refl,
)

pub stream-Reliable : Reliable stream incoming_of
stream-Reliable = record {
  deliver = λ len millis w front rest e k pos. stream_deliver len w front rest e k;
}

-- Refuses to send, as over a broken connection.
abbrev pub broken : Service Wire
broken = record {
  send = λ d w. ret (ServiceError.unknown_error, 0, w);
  receive_with_timeout = λ len millis w. ret (ServiceError.unknown_error, [], w);
}
