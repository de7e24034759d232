-- ===== src/Service.antt =====
-- src/service.c: the byte service that the protocol clients talk through, and its contract.
pub mod Contract
use libimobiledevice.Common.{
  ℕ, ◌^◌, ◌≤◌, ◌<◌, ◌≡◌, Bool, true, false, List, [], ◌∷◌, ◌++◌, Option, none, some, ◌==◌,
  if◌then◌else◌,
}
use libimobiledevice.Common.Bytes.{length}
use libimobiledevice.Common.Run.{Run, ret, ◌>>=◌, Ends}
use libimobiledevice.Idevice.{IdeviceError, Net, Connection, Link, link_of}
use libimobiledevice.Idevice.Send.{idevice_connection_send}
use libimobiledevice.Idevice.Receive.{idevice_connection_receive_timeout}

-- The codes of service_error_t.
pub data ServiceError : Type 0 where
  success invalid_arg mux_error ssl_error start_service_error not_enough_data timeout
        unknown_error :
      ServiceError

unfoldable pub idevice_to_service_error : IdeviceError → ServiceError
idevice_to_service_error IdeviceError.success = ServiceError.success
idevice_to_service_error IdeviceError.invalid_arg = ServiceError.invalid_arg
idevice_to_service_error IdeviceError.ssl_error = ServiceError.ssl_error
idevice_to_service_error IdeviceError.not_enough_data = ServiceError.not_enough_data
idevice_to_service_error IdeviceError.timeout = ServiceError.timeout
idevice_to_service_error _ = ServiceError.unknown_error

-- The codes with which service_receive_with_timeout stores a count.
abbrev pub stores : ServiceError → Bool
stores ServiceError.success = true
stores ServiceError.timeout = true
stores _ = false

-- What a service client pointer leads to: NULL, or a client whose connection may be NULL; and the
-- outside world.
pub record Host (W : Type 0) : Type 0 where
  pub client : Option (Option Connection)
  pub net : W

abbrev pub host_of : {W : Type 0} → Link W → Host W
host_of l = record { client = some l.connection; net = l.net }

module _ {W : Type 0} (net : Net W) (rounds : ℕ) where
  -- By what the client pointer leads to, for a buffer that is there.
  unfoldable pub send_from :
      Option (Option Connection) → List ℕ → W → Run (ServiceError × ℕ × Host W)
  send_from none d w = ret (ServiceError.invalid_arg, 0, record { client = none; net = w })
  send_from (some none) d w =
      ret (ServiceError.invalid_arg, 0, record { client = some none; net = w })
  send_from (some (some c)) [] w =
      ret (ServiceError.invalid_arg, 0, record { client = some (some c); net = w })
  send_from (some (some c)) (b ∷ d) w =
      idevice_connection_send net rounds (some (b ∷ d)) (link_of c w) >>= λ r.
      ret (idevice_to_service_error r.0, r.1, host_of r.2)

  -- The count is 0 on the codes for which the source leaves `*sent` alone.
  unfoldable pub service_send : List ℕ → Host W → Run (ServiceError × ℕ × Host W)
  service_send d s = send_from s.client d s.net

  unfoldable pub receive_from :
      Option (Option Connection) → ℕ → ℕ → W → Run (ServiceError × List ℕ × Host W)
  receive_from none len millis w =
      ret (ServiceError.invalid_arg, [], record { client = none; net = w })
  receive_from (some none) len millis w =
      ret (ServiceError.invalid_arg, [], record { client = some none; net = w })
  receive_from (some (some c)) len millis w =
      if len == 0
      then ret (ServiceError.invalid_arg, [], record { client = some (some c); net = w })
      else idevice_connection_receive_timeout net rounds len millis (link_of c w) >>= λ r.
          let e = idevice_to_service_error r.0 in
          ret (e, (if stores e then r.1 else []), host_of r.2)

  -- The bytes are those counted by `*received`; there are none on the codes that do not store it.
  unfoldable pub service_receive_with_timeout :
      ℕ → ℕ → Host W → Run (ServiceError × List ℕ × Host W)
  service_receive_with_timeout len millis s = receive_from s.client len millis s.net

  unfoldable pub service_receive : ℕ → Host W → Run (ServiceError × List ℕ × Host W)
  service_receive len s = service_receive_with_timeout len 30000 s

-- What a protocol client uses of this file, over states `S`.
pub record Service (S : Type 0) : Type 0 where
  pub send : List ℕ → S → Run (ServiceError × ℕ × S)
  pub receive_with_timeout : ℕ → ℕ → S → Run (ServiceError × List ℕ × S)

module _ {S : Type 0} (service : Service S) where
  abbrev pub receive : ℕ → S → Run (ServiceError × List ℕ × S)
  receive len s = service.receive_with_timeout len 30000 s

-- The contract, over the bytes that went out and those that wait to be read.
pub record IsTransport {S : Type 0} (service : Service S) (log pending : S → List ℕ) : Type 0 where
  pub send_complete :
      (d : List ℕ) (s : S) (n : ℕ) (s' : S)
      → length d < 2 ^ 32
      → service.send d s ≡ ret (ServiceError.success, n, s')
      → (n ≡ length d) × (log s' ≡ log s ++ d)
  pub send_full :
      (d : List ℕ) (s : S) (e : ServiceError) (n : ℕ) (s' : S)
      → 0 < length d
      → service.send d s ≡ ret (e, n, s')
      → n ≡ length d
      → e ≡ ServiceError.success
  pub receive_bounded :
      (len millis : ℕ) (s : S) (e : ServiceError) (bs : List ℕ) (s' : S)
      → service.receive_with_timeout len millis s ≡ ret (e, bs, s')
      → length bs ≤ len
  pub receive_next :
      (len millis : ℕ) (s : S) (e : ServiceError) (bs : List ℕ) (s' : S)
      → service.receive_with_timeout len millis s ≡ ret (e, bs, s')
      → stores e ≡ true
      → pending s ≡ bs ++ pending s'

-- A connection over which a read that the device has answered comes back whole.
pub record Reliable {S : Type 0} (service : Service S) (pending : S → List ℕ) : Type 0 where
  pub deliver :
      (len millis : ℕ) (s : S) (front rest : List ℕ)
      → pending s ≡ front ++ rest
      → length front ≡ len
      → 0 < len
      → (s' : S) × (service.receive_with_timeout len millis s
          ≡ ret (ServiceError.success, front, s'))
        × (pending s' ≡ rest)

-- The contract's part on termination: calls on fewer than `cap` bytes return.
pub record Returning {S : Type 0} (service : Service S) (cap : ℕ) : Type 0 where
  pub send_ends : (d : List ℕ) (s : S) → length d < cap → Ends (service.send d s)
  pub receive_ends : (len millis : ℕ) (s : S) → Ends (service.receive_with_timeout len millis s)

abbrev pub service_of : {W : Type 0} → Net W → ℕ → Service (Host W)
service_of net rounds = record {
  send = service_send net rounds;
  receive_with_timeout = service_receive_with_timeout net rounds;
}
