-- ===== src/Idevice.antt =====
-- src/idevice.c: a connection to a device, and the calls below it, as the library has them when it
-- is built with OpenSSL. The system's and the third-party calls (usbmuxd, sockets, SSL)
-- are the fields of `Net`; its states `W` are those of the outside world.
pub mod Send
pub mod Receive
use libimobiledevice.Common.{
  ℕ, suc, ◌+◌, ◌%◌, ◌^◌, Bool, true, false, List, Option, none, some, if◌then◌else◌,
}

-- The codes of idevice_error_t.
pub data IdeviceError : Type 0 where
  success invalid_arg unknown_error no_device not_enough_data connrefused ssl_error timeout :
      IdeviceError

abbrev pub is_success : IdeviceError → Bool
is_success IdeviceError.success = true
is_success _ = false

-- What a socket call returns in an `int`: a count that is not negative, or minus an errno.
pub data Code : Type 0 where
  done : ℕ → Code
  eagain etimedout : Code
  eother : ℕ → Code

-- What an SSL call returns: the bytes moved, a positive number, or the verdict of SSL_get_error:
-- `want` is SSL_ERROR_WANT_WRITE for a write and SSL_ERROR_WANT_READ for a read, and all but that
-- and SSL_ERROR_ZERO_RETURN is `failed`.
pub data SslCode : Type 0 where
  moved : ℕ → SslCode
  want zero_return failed : SslCode

abbrev pub is_done : Code → Bool
is_done (Code.done n) = true
is_done _ = false

abbrev pub is_eagain : Code → Bool
is_eagain Code.eagain = true
is_eagain _ = false

abbrev pub count : Code → ℕ
count (Code.done n) = n
count _ = 0

abbrev pub is_moved : SslCode → Bool
is_moved (SslCode.moved n) = true
is_moved _ = false

abbrev pub is_want : SslCode → Bool
is_want SslCode.want = true
is_want _ = false

abbrev pub moved_count : SslCode → ℕ
moved_count (SslCode.moved n) = n
moved_count _ = 0

-- The calls into other libraries. The SSL calls read and write the socket through the callbacks
-- of the connection: they are given its timeout and its status, and return its new status.
pub record Net (W : Type 0) : Type 0 where
  pub usbmuxd_send : ℕ → List ℕ → W → Code × ℕ × W
  pub socket_send : ℕ → List ℕ → W → Code × W
  pub usbmuxd_recv_timeout : ℕ → ℕ → ℕ → W → Code × List ℕ × W
  pub socket_receive_timeout : ℕ → ℕ → ℕ → W → Code × List ℕ × W
  pub ssl_write : ℕ → List ℕ → ℕ → IdeviceError → W → SslCode × IdeviceError × W
  pub ssl_read : ℕ → ℕ → ℕ → IdeviceError → W → SslCode × List ℕ × IdeviceError × W
  pub ssl_set_shutdown : ℕ → W → W

pub data ConnectionType : Type 0 where
  usbmuxd network : ConnectionType
  other : ℕ → ConnectionType

-- struct idevice_connection_private. `ssl_data` holds its session, which may be NULL.
pub record Connection : Type 0 where
  pub type : ConnectionType
  pub handle : ℕ
  pub ssl_data : Option (Option ℕ)
  pub ssl_recv_timeout : ℕ
  pub status : IdeviceError

-- (unsigned int)-1
abbrev pub no_timeout : ℕ
no_timeout = 0xffffffff

-- The connection that a pointer leads to, NULL being `none`, and the outside world.
pub record Link (W : Type 0) : Type 0 where
  pub connection : Option Connection
  pub net : W

abbrev pub add32 : ℕ → ℕ → ℕ
add32 a b = (a + b) % 2 ^ 32

abbrev pub link_of : {W : Type 0} → Connection → W → Link W
link_of c w = record { connection = some c; net = w }

abbrev pub unlinked : {W : Type 0} → W → Link W
unlinked w = record { connection = none; net = w }

-- The status, or an SSL error where no callback has set one.
abbrev pub ssl_status : IdeviceError → IdeviceError
ssl_status st = if is_success st then IdeviceError.ssl_error else st
