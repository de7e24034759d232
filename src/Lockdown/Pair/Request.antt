-- ===== src/Lockdown/Pair/Request.antt =====
-- src/lockdown.c: the requests Pair, ValidatePair and Unpair.
use libimobiledevice.Common.{Bool, true, Option, none, some, if◌then◌else◌}
use libimobiledevice.Common.Bytes.{codes}
use libimobiledevice.Common.Run.{Run, ret, ◌>>=◌}
use libimobiledevice.PlistService.Secure.{SecureChannel}
use libimobiledevice.Dictionary.{Dicts, item_in, string_of, is_data, set_string}
use libimobiledevice.Userpref.{
  Usbmuxd, userpref_save_pair_record, root_private_key_key, host_private_key_key,
  wifi_mac_address_key, escrow_bag_key, userpref_delete_pair_record,
}
use libimobiledevice.Lockdown.Error.{LockdownError, is_success, lockdownd_strtoerr}
use libimobiledevice.Lockdown.Client.{Client, lockdown_check_result}
use libimobiledevice.Lockdown.Calls.{exchange, labelled}
use libimobiledevice.Lockdown.Pair.Record.{
  PairRecord, Verb, verb_name, verb_match, Keys, Source, given, find_source, record_of,
}

module _ {P : Type 0} (dicts : Dicts P) where
  -- What is private stays here.
  unfoldable pub public_record : P → P
  public_record p =
      dicts.remove_item (dicts.remove_item p root_private_key_key) host_private_key_key

  unfoldable pub with_options : Option P → P → P
  with_options none dict = dict
  with_options (some o) dict = dicts.set_item dict (codes "PairingOptions") o

  unfoldable pub pair_request : {C : Type 0} → Client C → Verb → Option P → P → P
  pair_request client verb options pair_record = with_options options (
      set_string dicts
        (set_string dicts
          (dicts.set_item (labelled dicts client) (codes "PairRecord") (public_record pair_record))
          (codes "Request") (verb_name verb))
        (codes "ProtocolVersion") (codes "2"))

  unfoldable pub pair_accepted : Verb → Option P → Bool
  pair_accepted verb dict = is_success (lockdown_check_result dicts dict (verb_match verb))

  -- The code for an answer: that of its error, if it has one.
  unfoldable pub pair_code : Verb → Option P → LockdownError
  pair_code verb dict =
      if pair_accepted verb dict
      then LockdownError.success
      else elim (string_of dicts (item_in dicts dict (codes "Error"))) [
        | none ↦ LockdownError.pairing_failed
        | some value ↦ lockdownd_strtoerr value
      ]

  -- The record to save: with the escrow bag of the answer and the WiFi address, as far as they are
  -- there.
  unfoldable pub with_escrow_bag : Option P → P → P
  with_escrow_bag none pair_record = pair_record
  with_escrow_bag (some bag) pair_record =
      if is_data (dicts.plist.node_type bag)
      then dicts.set_item pair_record escrow_bag_key bag
      else pair_record

  unfoldable pub with_wifi : Option P → P → P
  with_wifi none pair_record = pair_record
  with_wifi (some w) pair_record = dicts.set_item pair_record wifi_mac_address_key w

module _ {P C H : Type 0} (dicts : Dicts P) (channel : SecureChannel P C) (usbmuxd : Usbmuxd P H)
    (keys : Keys P H) where
  -- What an accepted request does to the records of this computer.
  unfoldable pub after_pairing : Verb → Source P → Option P → Client C → H → H
  after_pairing Verb.unpair (Source.internal p w) dict client h =
      (userpref_delete_pair_record usbmuxd client.device.udid h).1
  after_pairing Verb.pair (Source.internal p w) dict client h =
      (userpref_save_pair_record usbmuxd client.device.udid client.device.mux_id
        (with_wifi dicts w (with_escrow_bag dicts (item_in dicts dict escrow_bag_key) p)) h).1
  after_pairing _ _ dict client h = h

  abbrev pub Paired : Type 0
  Paired = Run (LockdownError × Option P × Client C × H)

  unfoldable pub pair_answered : Verb → Source P → Option P → Client C → H → Paired
  pair_answered verb source dict client h = ret (
    pair_code dicts verb dict,
    dict,
    client,
    (if pair_accepted dicts verb dict then after_pairing verb source dict client h else h),
  )

  unfoldable pub pair_with : Verb → Option P → Source P → Client C → H → Paired
  pair_with verb options source client h =
      exchange dicts channel client (pair_request dicts client verb options (record_of source))
      >>= λ r.
          if is_success r.0 then pair_answered verb source r.1 r.2 h else ret (r.0, none, r.2, h)

  -- The code, the answer, the client and the records of the computer.
  unfoldable pub lockdownd_do_pair : Client C → Option PairRecord → Verb → Option P → H → Paired
  lockdownd_do_pair client pair_record verb options h =
      find_source dicts channel usbmuxd keys (given dicts pair_record) verb client h >>= λ s.
      elim s.0.1 [
        | none ↦ ret (s.0.0, none, s.1, s.2)
        | some source ↦ pair_with verb options source s.1 s.2
      ]

  unfoldable pub lockdownd_pair : Client C → Option PairRecord → H → Paired
  lockdownd_pair client pair_record h =
      lockdownd_do_pair client pair_record Verb.pair
        (some (
          dicts.set_item dicts.new_dict (codes "ExtendedPairingErrors")
            (dicts.plist.new_bool true)))
        h

  unfoldable pub lockdownd_pair_with_options : Client C → Option PairRecord → Option P → H → Paired
  lockdownd_pair_with_options client pair_record options h =
      lockdownd_do_pair client pair_record Verb.pair options h

  unfoldable pub lockdownd_validate_pair : Client C → Option PairRecord → H → Paired
  lockdownd_validate_pair client pair_record h =
      lockdownd_do_pair client pair_record Verb.validate_pair none h

  unfoldable pub lockdownd_unpair : Client C → Option PairRecord → H → Paired
  lockdownd_unpair client pair_record h = lockdownd_do_pair client pair_record Verb.unpair none h
