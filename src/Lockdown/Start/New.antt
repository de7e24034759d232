-- ===== src/Lockdown/Start/New.antt =====
-- src/lockdown.c: a new client, which asks the device what it is.
use libimobiledevice.Common.{
  ℕ, ◌+◌, ◌-◌, ◌*◌, ◌%◌, Bool, false, ◌&&◌, ◌||◌, [], ◌∷◌, Option, none, some, leb, ◌==◌,
  if◌then◌else◌,
}
use libimobiledevice.Common.Bytes.{bytes_eq, codes}
use libimobiledevice.Common.Run.{Run, ret, ◌>>=◌}
use libimobiledevice.PlistService.Secure.{SecureChannel, succeeded}
use libimobiledevice.DeviceLink.{Text}
use libimobiledevice.Dictionary.{Dicts, string_of}
use libimobiledevice.Lockdown.Error.{LockdownError, is_success}
use libimobiledevice.Lockdown.Client.{Device, Client}
use libimobiledevice.Lockdown.Calls.{lockdownd_query_type, lockdownd_get_value}

-- IDEVICE_DEVICE_VERSION
unfoldable pub idevice_device_version : ℕ → ℕ → ℕ → ℕ
idevice_device_version maj min patch = (maj % 256) * 65536 + (min % 256) * 256 + patch % 256

unfoldable pub is_space : ℕ → Bool
is_space c = c == 32 || (leb 9 c && leb c 13)

unfoldable pub is_digit : ℕ → Bool
is_digit c = leb 48 c && leb c 57

-- What sscanf reads for a `%d`, as its low eight bits, which are all that is used, and the text
-- behind it.
unfoldable pub more_digits : ℕ → Text → ℕ × Text
more_digits n [] = (n, [])
more_digits n (c ∷ s) = if is_digit c then more_digits (n * 10 + (c - 48)) s else (n, c ∷ s)

unfoldable pub digits : Text → Option (ℕ × Text)
digits [] = none
digits (c ∷ s) = if is_digit c then some (more_digits 0 (c ∷ s)) else none

unfoldable pub negated : Option (ℕ × Text) → Option (ℕ × Text)
negated none = none
negated (some (n, s)) = some ((256 - n % 256) % 256, s)

unfoldable pub scan_int : Text → Option (ℕ × Text)
scan_int [] = none
scan_int (c ∷ s) =
    let rest = scan_int s in
    if is_space c
    then rest
    else if c == 45
    then negated (digits s)
    else if c == 43
    then digits s
    else digits (c ∷ s)

-- The same behind a full stop.
unfoldable pub scan_next : Text → Option (ℕ × Text)
scan_next [] = none
scan_next (c ∷ s) = if c == 46 then scan_int s else none

unfoldable pub patch_of : Option (ℕ × Text) → ℕ
patch_of none = 0
patch_of (some (n, s)) = n

-- Two numbers at least make a version.
unfoldable pub scan_version : Text → Option ℕ
scan_version t = elim (scan_int t) [
  | none ↦ none
  | some a ↦ elim (scan_next a.1) [
    | none ↦ none
    | some b ↦ some (idevice_device_version a.0 b.0 (patch_of (scan_next b.1)))
  ]
]

unfoldable pub device_class_of : Text → ℕ
device_class_of s =
    if bytes_eq s (codes "iPhone")
    then 1
    else if bytes_eq s (codes "iPad")
    then 2
    else if bytes_eq s (codes "iPod")
    then 3
    else if bytes_eq s (codes "Watch")
    then 5
    else if bytes_eq s (codes "AppleTV")
    then 4
    else 255

unfoldable pub version_of : Option Text → ℕ → ℕ
version_of none version = version
version_of (some s) version = elim (scan_version s) [ none ↦ version | some v ↦ v ]

unfoldable pub class_of : Option Text → ℕ → ℕ
class_of none device_class = device_class
class_of (some s) device_class = device_class_of s

module _ {P C : Type 0} (dicts : Dicts P) (channel : SecureChannel P C) where
  unfoldable pub is_lockdownd : LockdownError → Option Text → Bool
  is_lockdownd e none = false
  is_lockdownd e (some type) = is_success e && bytes_eq (codes "com.apple.mobile.lockdown") type

  -- The text under a key, if the device gives one, and the client. The device is the same object
  -- for all its clients; its changes are those of the `device` of this one.
  unfoldable pub ask_text : Client C → Text → Run (Option Text × Client C)
  ask_text client key = lockdownd_get_value dicts channel client none (some key) >>= λ r.
      ret ((if is_success r.0 then string_of dicts r.1 else none), r.2)

  unfoldable pub learn_version : Bool → Client C → Run (Client C)
  learn_version known client =
      if known && client.device.version == 0
      then (ask_text client (codes "ProductVersion") >>= λ r. ret (record r.1 {
        device = record r.1.device { version = version_of r.0 r.1.device.version };
      }))
      else ret client

  unfoldable pub learn_class : Bool → Client C → Run (Client C)
  learn_class known client =
      if known && client.device.device_class == 0
      then (ask_text client (codes "DeviceClass") >>= λ r. ret (record r.1 {
        device = record r.1.device { device_class = class_of r.0 r.1.device.device_class };
      }))
      else ret client

  unfoldable pub introduce : Client C → Run (Client C)
  introduce client = lockdownd_query_type dicts channel client >>= λ q.
      learn_version (is_lockdownd q.0 q.1) q.2 >>= λ c. learn_class (is_lockdownd q.0 q.1) c

  -- Once there is a connection, whatever the device says makes no error.
  unfoldable pub lockdownd_client_new :
      Device → Option Text → Run (LockdownError × Option (Client C))
  lockdownd_client_new device label = channel.client_new 0xf27e false >>= λ r.
      if succeeded r.0
      then (introduce (record {
        parent = r.1;
        ssl_enabled = false;
        session_id = none;
        label = label;
        device = device;
      })
          >>= λ c. ret (LockdownError.success, some c))
      else ret (LockdownError.mux_error, none)
