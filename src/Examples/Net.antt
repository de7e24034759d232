-- ===== src/Examples/Net.antt =====
-- A model of the calls of other libraries, and of their laws: every call moves three bytes at most,
-- and every other send asks to be made again.
use libimobiledevice.Common.{
  ℕ, ◌≤◌, ◌<◌, ◌≡◌, refl, Bool, true, false, List, [], ◌∷◌, ◌++◌, none, some, arith, leb,
  if◌then◌else◌,
}
use libimobiledevice.Common.Bytes.{length, take, drop, length-take-le, take-append-drop}
use libimobiledevice.Idevice.{
  IdeviceError, Code, SslCode, Net, ConnectionType, Connection, Link, no_timeout, is_moved, is_want,
  moved_count,
}
use libimobiledevice.Idevice.Send.Complete.{SendLaws}
use libimobiledevice.Idevice.Receive.Bounds.{Takes, ReceiveLaws}
use libimobiledevice.Idevice.Send.Ends.{Progress}

-- What has gone out, what the device has sent, and whether the next send asks to be made again.
pub record World : Type 0 where
  pub out : List ℕ
  pub incoming : List ℕ
  pub busy : Bool

abbrev pub out_of : World → List ℕ
out_of w = w.out

abbrev pub incoming_of : World → List ℕ
incoming_of w = w.incoming

abbrev pub tries_of : World → ℕ
tries_of w = if w.busy then 1 else 0

abbrev min3 : ℕ → ℕ
min3 n = if leb 3 n then 3 else n

min3_le : (n : ℕ) → min3 n ≤ n
min3_le n = ground arith

abbrev sent : List ℕ → World → World
sent d w = record w { out = w.out ++ take (min3 (length d)) d; busy = true }

abbrev asked : World → World
asked w = record w { busy = false }

abbrev usb_send : List ℕ → World → Code × ℕ × World
usb_send d w =
    if w.busy
    then (Code.eagain, 0, asked w)
    else (Code.done (min3 (length d)), min3 (length d), sent d w)

abbrev ssl_write_model : List ℕ → IdeviceError → World → SslCode × IdeviceError × World
ssl_write_model [] st w = (SslCode.failed, st, w)
ssl_write_model (b ∷ d) st w =
    if w.busy
    then (SslCode.want, st, asked w)
    else (SslCode.moved (min3 (length (b ∷ d))), st, sent (b ∷ d) w)

abbrev read_model : ℕ → World → List ℕ × World
read_model len w = (take (min3 len) w.incoming, record w { incoming = drop (min3 len) w.incoming })

abbrev pub model : Net World
model = record {
  usbmuxd_send = λ h d w. usb_send d w;
  socket_send = λ h d w. (Code.done (min3 (length d)), sent d w);
  usbmuxd_recv_timeout =
      λ h len millis w. let r = read_model len w in (Code.done (length r.0), r.0, r.1);
  socket_receive_timeout =
      λ h len millis w. let r = read_model len w in (Code.done (length r.0), r.0, r.1);
  ssl_write = λ s d t st w. ssl_write_model d st w;
  ssl_read = λ s len t st w. let r = read_model len w in (SslCode.moved (length r.0), r.0, st, r.1);
  ssl_set_shutdown = λ s w. w;
}

ssl_write_moved :
    (d : List ℕ) (st : IdeviceError) (w : World)
    → is_moved (ssl_write_model d st w).0 ≡ true
    → let n = moved_count (ssl_write_model d st w).0 in
      (0 < n) × (n ≤ length d) × ((ssl_write_model d st w).2.out ≡ w.out ++ take n d)
ssl_write_moved [] st w h = ground arith
ssl_write_moved (b ∷ d) st w h = ground arith

ssl_write_want :
    (d : List ℕ) (st : IdeviceError) (w : World)
    → is_want (ssl_write_model d st w).0 ≡ true
    → let w' = (ssl_write_model d st w).2 in (w'.out ≡ w.out) × (tries_of w' < tries_of w)
ssl_write_want [] st w h = ground arith
ssl_write_want (b ∷ d) st w h = ground arith

read_model-Takes :
    (len : ℕ) (w : World) → Takes incoming_of len (read_model len w).0 w (read_model len w).1
read_model-Takes len w =
    ground (arith, length-take-le (min3 len) w.incoming, take-append-drop (min3 len) w.incoming)

pub model-SendLaws : SendLaws model out_of
model-SendLaws = record {
  usb_done = λ h d w e. ground arith;
  usb_eagain = λ h d w e. ground arith;
  socket_done = λ h d w e. ground arith;
  ssl_moved = λ s d t st w e. let m = ssl_write_moved d st w e in (m.1, m.2);
  ssl_want = λ s d t st w e. (ssl_write_want d st w e).0;
}

pub model-ReceiveLaws : ReceiveLaws model incoming_of
model-ReceiveLaws = record {
  usb = λ h len millis w. read_model-Takes len w;
  socket = λ h len millis w. read_model-Takes len w;
  socket_error = λ h len millis w e. ground arith;
  ssl = λ s len millis st w. read_model-Takes len w;
  ssl_error = λ s len millis st w e. ground arith;
  shutdown = λ s w. refl;
}

pub model-Progress : Progress model 1 tries_of
model-Progress = record {
  bounded = λ w. ground arith;
  usb_done = λ h d w e pos. ground arith;
  usb_eagain = λ h d w e. ground arith;
  socket_done = λ h d w e pos. ground arith;
  ssl_moved = λ s d t st w e. let m = ssl_write_moved d st w e in (m.0, m.1);
  ssl_want = λ s d t st w e. (ssl_write_want d st w e).1;
}

abbrev pub usb : Connection
usb = record {
  type = ConnectionType.usbmuxd;
  handle = 7;
  ssl_data = none;
  ssl_recv_timeout = no_timeout;
  status = IdeviceError.success;
}

abbrev pub usb_link : List ℕ → List ℕ → Link World
usb_link out incoming = record {
  connection = some usb;
  net = record { out = out; incoming = incoming; busy = true };
}
