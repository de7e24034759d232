-- ===== src/Userpref.antt =====
-- src/common/userpref.c: the pair records of this computer, which usbmuxd keeps, and the SystemBUID.
use libimobiledevice.Common.{ℕ, Bool, true, false, List, Option, none, some, ◌==◌, if◌then◌else◌}
use libimobiledevice.DeviceLink.{Text}
use libimobiledevice.Common.Bytes.{codes}
use libimobiledevice.Dictionary.{Dicts, string_in, set_string}

-- The codes of userpref_error_t.
pub data UserprefError : Type 0 where
  success invalid_arg noent invalid_conf ssl_error read_error write_error unknown_error :
      UserprefError

abbrev pub is_success : UserprefError → Bool
is_success UserprefError.success = true
is_success _ = false

-- What usbmuxd_read_pair_record comes back with: the record's bytes, or an error number.
pub data Stored : Type 0 where
  record_data : List ℕ → Stored
  errno : ℕ → Stored

-- libusbmuxd over the state `H` of usbmuxd's store, and libplist's plist_from_memory and
-- plist_to_bin. Whether saving succeeded is that of its result 0.
pub record Usbmuxd (P H : Type 0) : Type 0 where
  pub read_buid : H → Option Text
  pub read_pair_record : Text → H → Stored
  pub save_pair_record_with_device_id : Text → ℕ → List ℕ → H → Bool × H
  pub delete_pair_record : Text → H → Bool × H
  pub from_memory : List ℕ → Option P
  pub to_bin : P → List ℕ

-- ENOENT and ETIMEDOUT.
abbrev pub enoent : ℕ
enoent = 2

abbrev pub etimedout : ℕ
etimedout = 110

unfoldable pub escrow_bag_key : Text
escrow_bag_key = codes "EscrowBag"

unfoldable pub root_private_key_key : Text
root_private_key_key = codes "RootPrivateKey"

unfoldable pub host_private_key_key : Text
host_private_key_key = codes "HostPrivateKey"

unfoldable pub host_id_key : Text
host_id_key = codes "HostID"

unfoldable pub system_buid_key : Text
system_buid_key = codes "SystemBUID"

unfoldable pub wifi_mac_address_key : Text
wifi_mac_address_key = codes "WiFiMACAddress"

module _ {P H : Type 0} (usbmuxd : Usbmuxd P H) where
  -- The text that the result pointer has, `none` where it stays NULL.
  unfoldable pub userpref_read_system_buid : H → Option Text
  userpref_read_system_buid h = usbmuxd.read_buid h

  unfoldable pub userpref_save_pair_record : Text → ℕ → P → H → UserprefError × H
  userpref_save_pair_record udid device_id pair_record h =
      let r =
        usbmuxd.save_pair_record_with_device_id udid device_id (usbmuxd.to_bin pair_record) h in
      ((if r.0 then UserprefError.success else UserprefError.unknown_error), r.1)

  unfoldable pub parse_record : List ℕ → UserprefError × Option P
  parse_record bs = elim (usbmuxd.from_memory bs) [
    | none ↦ (UserprefError.invalid_conf, none)
    | some p ↦ (UserprefError.success, some p)
  ]

  -- The code and the pair record, `none` where its pointer is NULL.
  unfoldable pub read_result : Stored → UserprefError × Option P
  read_result (Stored.record_data bs) = parse_record bs
  read_result (Stored.errno e) =
      if e == enoent
      then (UserprefError.noent, none)
      else if e == etimedout
      then (UserprefError.read_error, none)
      else (UserprefError.invalid_conf, none)

  unfoldable pub userpref_read_pair_record : Text → H → UserprefError × Option P
  userpref_read_pair_record udid h = read_result (usbmuxd.read_pair_record udid h)

  unfoldable pub userpref_delete_pair_record : Text → H → UserprefError × H
  userpref_delete_pair_record udid h =
      let r = usbmuxd.delete_pair_record udid h in
      ((if r.0 then UserprefError.success else UserprefError.unknown_error), r.1)

module _ {P : Type 0} (dicts : Dicts P) where
  unfoldable pub pair_record_get_host_id : P → Option Text
  pair_record_get_host_id pair_record = string_in dicts (dicts.get_item pair_record host_id_key)

  unfoldable pub pair_record_set_host_id : P → Text → P
  pair_record_set_host_id pair_record host_id = set_string dicts pair_record host_id_key host_id
