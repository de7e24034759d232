-- ===== src/Lockdown/Pair/HostId.antt =====
-- src/lockdown.c: after pairing, the stored pair record is one that a session can be started with.
use libimobiledevice.Common.{◌≡◌, ◌≢◌, List, Option, none, some, ℕ}
use libimobiledevice.PlistService.Secure.{SecureChannel}
use libimobiledevice.DeviceLink.{Text}
use libimobiledevice.Dictionary.{Dicts}
use libimobiledevice.Dictionary.Laws.{DictLaws}
use libimobiledevice.Userpref.{
  UserprefError, Usbmuxd, Stored, userpref_read_pair_record, pair_record_get_host_id,
}
use libimobiledevice.Lockdown.Error.{LockdownError}
use libimobiledevice.Lockdown.Client.{Client}
use libimobiledevice.Lockdown.Pair.Record.{Keys, Source}

-- What usbmuxd and libplist document: a saved record is there, and a printed one is read back.
pub record StoreLaws {P H : Type 0} (usbmuxd : Usbmuxd P H) : Type 0 where
  pub read-save :
      (udid : Text) (n : ℕ) (bs : List ℕ) (h : H)
      → usbmuxd.read_pair_record udid (usbmuxd.save_pair_record_with_device_id udid n bs h).1
        ≡ Stored.record_data bs
  pub from-to : (p : P) → usbmuxd.from_memory (usbmuxd.to_bin p) ≡ some p

-- The record has a host id.
abbrev pub Named : {P : Type 0} → Dicts P → P → Type 0
Named dicts p = (id : Text) × (pair_record_get_host_id dicts p ≡ some id)

module _ {P C H : Type 0} (dicts : Dicts P) (laws : DictLaws dicts) (channel : SecureChannel P C)
    (usbmuxd : Usbmuxd P H) (store : StoreLaws usbmuxd) (keys : Keys P H) where
  -- The record that there is to pair with is one of this computer, and has a host id; without one
  -- the code is an error.
  abbrev Found : LockdownError × Option (Source P) → Type 0
  Found r =
      (r.1 ≡ none → r.0 ≢ LockdownError.success)
      × ((s : Source P)
          → r.1 ≡ some s
          → (p : P) × (w : Option P) × (s ≡ Source.internal p w) × Named dicts p)

  abbrev Generated : LockdownError × Option P × H → Type 0
  Generated r =
      (r.1 ≡ none → r.0 ≢ LockdownError.success) × ((p : P) → r.1 ≡ some p → Named dicts p)

  -- A record with a host id is read for the client's device.
  abbrev pub Paired : LockdownError × Option P × Client C × H → Type 0
  Paired r =
      r.0 ≡ LockdownError.success
      → (p : P) × (userpref_read_pair_record usbmuxd r.2.device.udid r.3
          ≡ (UserprefError.success, some p))
        × Named dicts p
