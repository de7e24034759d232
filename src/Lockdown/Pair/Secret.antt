-- ===== src/Lockdown/Pair/Secret.antt =====
-- src/lockdown.c: the private keys of a pair record stay on the computer.
use libimobiledevice.Common.{
  ◌≡◌, refl, ap, ◌∙◌, Bool, true, false, ◌||◌, Option, none, some, arith, inl, inr, Bool-cases,
  if◌then◌else◌,
}
use libimobiledevice.Common.Bytes.{codes, bytes_eq→neq}
use libimobiledevice.Common.Run.{faults, >>=-cong, Option-cong}
use libimobiledevice.PlistService.Secure.{SecureChannel}
use libimobiledevice.DeviceLink.{Text, is_dict}
use libimobiledevice.Dictionary.{Dicts}
use libimobiledevice.Dictionary.Laws.{DictLaws, get-set_string-other, get-set_if-other}
use libimobiledevice.Userpref.{Usbmuxd, root_private_key_key, host_private_key_key}
use libimobiledevice.Lockdown.Error.{LockdownError}
use libimobiledevice.Lockdown.Client.{Client}
use libimobiledevice.Lockdown.Calls.{
  plist_dict_add_label, labelled, value_request, lockdownd_send, lockdownd_receive, exchange,
  checked, lockdownd_get_value,
}
use libimobiledevice.Lockdown.Pair.Record.{
  PairRecord, Verb, Keys, Source, record_of, given, new_source, own_source, find_source,
  pair_record_generate, lockdownd_get_device_public_key_as_key_data,
}
use libimobiledevice.Lockdown.Pair.Request.{
  public_record, with_options, pair_request, pair_answered, after_pairing, pair_with,
  lockdownd_do_pair,
}

abbrev pair_record_name : Text
pair_record_name = codes "PairRecord"

abbrev is_there : {P : Type 0} → Option P → Bool
is_there none = false
is_there (some p) = true

module _ {P : Type 0} (dicts : Dicts P) where
  abbrev secret_in : Option P → Bool
  secret_in none = false
  secret_in (some r) =
      is_there (dicts.get_item r root_private_key_key)
      || is_there (dicts.get_item r host_private_key_key)

  -- A request that has a pair record with a private key in it.
  abbrev pub leaks : P → Bool
  leaks p = secret_in (dicts.get_item p pair_record_name)

-- The requests of a client, whatever its connection.
module _ {P : Type 0} (dicts : Dicts P) (laws : DictLaws dicts) where
  add_label-none :
      (label : Option Text)
      → dicts.get_item (plist_dict_add_label dicts dicts.new_dict label) pair_record_name ≡ none
  unfolding plist_dict_add_label
  add_label-none none = laws.get-new pair_record_name
  add_label-none (some l) = elim (Bool-cases (is_dict (dicts.plist.node_type dicts.new_dict))) [
    | inl t ↦ rw t (
        get-set_string-other dicts laws dicts.new_dict (codes "Label") pair_record_name l
          (bytes_eq→neq _ _ refl)
        ∙ laws.get-new pair_record_name)
    | inr f ↦ rw f (laws.get-new pair_record_name)
  ]

  value_request-safe :
      {C : Type 0} (client : Client C) (domain key : Option Text) (name : Text)
      → leaks dicts (value_request dicts client domain key name) ≡ false
  unfolding value_request labelled
  value_request-safe client domain key name = ap (secret_in dicts) (
      get-set_string-other dicts laws _ (codes "Request") pair_record_name name
        (bytes_eq→neq _ _ refl)
      ∙ get-set_if-other dicts laws _ (codes "Key") pair_record_name key (bytes_eq→neq _ _ refl)
      ∙ get-set_if-other dicts laws _ (codes "Domain") pair_record_name domain
          (bytes_eq→neq _ _ refl)
      ∙ add_label-none client.label)

  public_record-safe : (p : P) → secret_in dicts (some (public_record dicts p)) ≡ false
  unfolding public_record root_private_key_key host_private_key_key
  public_record-safe p =
      let host : dicts.get_item (public_record dicts p) host_private_key_key ≡ none =
        laws.get-remove _ host_private_key_key in
      let root : dicts.get_item (public_record dicts p) root_private_key_key ≡ none =
        laws.get-remove-other _ host_private_key_key root_private_key_key (bytes_eq→neq _ _ refl)
        ∙ laws.get-remove p root_private_key_key in
      ground (arith, host, root)

  with_options-safe :
      (options : Option P) (d : P)
      → leaks dicts d ≡ false
      → leaks dicts (with_options dicts options d) ≡ false
  unfolding with_options
  with_options-safe none d h = h
  with_options-safe (some o) d h =
      ap (secret_in dicts)
        (laws.get-set-other d (codes "PairingOptions") pair_record_name o (bytes_eq→neq _ _ refl))
      ∙ h

  pair_request-safe :
      {C : Type 0} (client : Client C) (verb : Verb) (options : Option P) (p : P)
      → leaks dicts (pair_request dicts client verb options p) ≡ false
  unfolding pair_request
  pair_request-safe client verb options p = with_options-safe options _ (
      ap (secret_in dicts) (
        get-set_string-other dicts laws _ (codes "ProtocolVersion") pair_record_name _
          (bytes_eq→neq _ _ refl)
        ∙ get-set_string-other dicts laws _ (codes "Request") pair_record_name _
            (bytes_eq→neq _ _ refl)
        ∙ laws.get-set _ pair_record_name (public_record dicts p))
      ∙ public_record-safe p)

module _ {P C : Type 0} (dicts : Dicts P) where
  -- The channel that does not survive sending such a request.
  abbrev pub guarded : SecureChannel P C → SecureChannel P C
  guarded channel = record channel {
    send_xml_plist = λ c p. if leaks dicts p then faults else channel.send_xml_plist c p;
  }

module _ {P C H : Type 0} (dicts : Dicts P) (laws : DictLaws dicts) (channel : SecureChannel P C)
    (usbmuxd : Usbmuxd P H) (keys : Keys P H) where
  exchange-guarded :
      (client : Client C) (p : P)
      → leaks dicts p ≡ false
      → exchange dicts (guarded dicts channel) client p ≡ exchange dicts channel client p
  unfolding exchange lockdownd_send lockdownd_receive
  exchange-guarded client p e = rw e refl

  get_value-guarded :
      (client : Client C) (domain key : Option Text)
      → lockdownd_get_value dicts (guarded dicts channel) client domain key
        ≡ lockdownd_get_value dicts channel client domain key
  unfolding lockdownd_get_value checked
  get_value-guarded client domain key =
      rw
        (exchange-guarded client (value_request dicts client domain key (codes "GetValue"))
          (value_request-safe dicts laws client domain key (codes "GetValue")))
        refl

  public_key-guarded :
      (client : Client C)
      → lockdownd_get_device_public_key_as_key_data dicts
          (guarded dicts channel)
          usbmuxd
          keys
          client
        ≡ lockdownd_get_device_public_key_as_key_data dicts channel usbmuxd keys client
  unfolding lockdownd_get_device_public_key_as_key_data
  public_key-guarded client =
      rw (get_value-guarded client none (some (codes "DevicePublicKey"))) refl

  generate-guarded :
      (client : Client C) (h : H)
      → pair_record_generate dicts (guarded dicts channel) usbmuxd keys client h
        ≡ pair_record_generate dicts channel usbmuxd keys client h
  unfolding pair_record_generate
  generate-guarded client h = rw (public_key-guarded client) refl

  new_source-guarded :
      (client : Client C) (h : H)
      → new_source dicts (guarded dicts channel) usbmuxd keys client h
        ≡ new_source dicts channel usbmuxd keys client h
  unfolding new_source
  new_source-guarded client h =
      >>=-cong (pair_record_generate dicts (guarded dicts channel) usbmuxd keys client h)
        (pair_record_generate dicts channel usbmuxd keys client h) _ _ (generate-guarded client h)
        (λ r.
          Option-cong r.0.1 _ _ _
            (λ p. rw (get_value-guarded r.1 none (some (codes "WiFiAddress"))) refl))

  own_source-guarded :
      (verb : Verb) (client : Client C) (h : H)
      → own_source dicts (guarded dicts channel) usbmuxd keys verb client h
        ≡ own_source dicts channel usbmuxd keys verb client h
  unfolding own_source
  own_source-guarded Verb.pair client h = new_source-guarded client h
  own_source-guarded Verb.validate_pair client h = refl
  own_source-guarded Verb.unpair client h = refl

  find_source-guarded :
      (s : Option (LockdownError × Option (Source P))) (verb : Verb) (client : Client C) (h : H)
      → find_source dicts (guarded dicts channel) usbmuxd keys s verb client h
        ≡ find_source dicts channel usbmuxd keys s verb client h
  unfolding find_source
  find_source-guarded none verb client h = own_source-guarded verb client h
  find_source-guarded (some s) verb client h = refl

  pair_with-guarded :
      (verb : Verb) (options : Option P) (s : Source P) (client : Client C) (h : H)
      → pair_with dicts (guarded dicts channel) usbmuxd keys verb options s client h
        ≡ pair_with dicts channel usbmuxd keys verb options s client h
  unfolding pair_with pair_answered after_pairing
  pair_with-guarded verb options s client h =
      rw
        (exchange-guarded client (pair_request dicts client verb options (record_of s))
          (pair_request-safe dicts laws client verb options (record_of s)))
        refl

  -- Over a channel that does not survive the sending of a pair record with one of the two private
  -- keys in it, lockdownd_do_pair comes to the same in all circumstances, for all verbs, options
  -- and pair records: it never sends one.
  pub do_pair-guarded :
      (client : Client C) (pair_record : Option PairRecord) (verb : Verb) (options : Option P)
      (h : H)
      → lockdownd_do_pair dicts
          (guarded dicts channel)
          usbmuxd
          keys
          client
          pair_record
          verb
          options
          h
        ≡ lockdownd_do_pair dicts channel usbmuxd keys client pair_record verb options h
  unfolding lockdownd_do_pair
  do_pair-guarded client pair_record verb options h =
      >>=-cong _ _ _ _ (find_source-guarded (given dicts pair_record) verb client h)
        (λ s. Option-cong s.0.1 _ _ _ (λ source. pair_with-guarded verb options source s.1 s.2))
