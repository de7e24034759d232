-- ===== src/DeviceLink/Process.antt =====
-- Process messages: what is sent is received, and nothing else is taken for one.
use libimobiledevice.Common.{
  ◌≡◌, refl, true, false, List, [], ◌∷◌, Option, none, some, arith, inl, inr, Bool-cases,
  Option-cases,
}
use libimobiledevice.Common.Run.{ret, >>=-eq-ret}
use libimobiledevice.Common.Bytes.{length, bytes_eq_refl}
use libimobiledevice.PlistService.{PlistServiceError, Channel}
use libimobiledevice.DeviceLink.{
  Text, DeviceLinkError, NodeType, device_link_error, Plist, process_message_name, is_dl_name,
  is_message, is_dict,
}
use libimobiledevice.DeviceLink.Message.{name_of, device_link_service_get_message, process_result}
use libimobiledevice.DeviceLink.Exchange.{
  send_to, device_link_service_send_process_message, device_link_service_receive_process_message,
}
use libimobiledevice.DeviceLink.Version.{device_link_error-success}

-- What is documented of libplist: an array has the items that it was made of, and a string node
-- its text.
pub record PlistLaws {P : Type 0} (plist : Plist P) : Type 0 where
  pub array_type : (l : List P) → plist.node_type (plist.new_array l) ≡ NodeType.array
  pub array_length : (l : List P) → plist.array_size (plist.new_array l) ≡ length l
  pub first_item : (a : P) (l : List P) → plist.array_item (plist.new_array (a ∷ l)) 0 ≡ some a
  pub second_item :
      (a b : P) (l : List P) → plist.array_item (plist.new_array (a ∷ b ∷ l)) 1 ≡ some b
  pub string_type : (s : Text) → plist.node_type (plist.new_string s) ≡ NodeType.string
  pub string_back : (s : Text) → plist.string_val (plist.new_string s) ≡ some s

name_is_dl : is_dl_name process_message_name ≡ true
unfolding is_dl_name process_message_name
name_is_dl = refl

module _ {P : Type 0} (plist : Plist P) where
  -- The array that device_link_service_send_process_message sends.
  abbrev pub process_message : P → P
  process_message m = plist.new_array (plist.new_string process_message_name ∷ m ∷ [])

  get_message-process_message :
      (laws : PlistLaws plist) (m : P)
      → device_link_service_get_message plist (some (process_message m)) ≡ some process_message_name
  unfolding device_link_service_get_message name_of
  get_message-process_message laws m =
      let named = plist.new_string process_message_name in
      ground (
        arith,
        laws.array_type (named ∷ m ∷ []),
        laws.array_length (named ∷ m ∷ []),
        laws.first_item named (m ∷ []),
        laws.string_type process_message_name,
        laws.string_back process_message_name,
        name_is_dl,
      )

  is_message_self : (s : Text) → is_message s (some s) ≡ true
  unfolding is_message
  is_message_self s = bytes_eq_refl s

  process_result-process_message :
      (laws : PlistLaws plist) (m : P)
      → process_result plist (some (process_message m)) ≡ (DeviceLinkError.success, some m)
  unfolding process_result
  process_result-process_message laws m =
      let named = plist.new_string process_message_name in
      ground (
        arith,
        get_message-process_message laws m,
        is_message_self process_message_name,
        laws.array_length (named ∷ m ∷ []),
        laws.second_item named m [],
      )

  -- A message that process_result accepts.
  pub record IsDelivery (a : Option P) (m : P) : Type 0 where
    pub node : P
    pub there : a ≡ some node
    pub named :
        is_message process_message_name (device_link_service_get_message plist (some node)) ≡ true
    pub pair : plist.array_size node ≡ 2
    pub item : plist.array_item node 1 ≡ some m

  process_result-IsDelivery :
      (a : Option P) (m : Option P)
      → process_result plist a ≡ (DeviceLinkError.success, m)
      → (x : P) × (m ≡ some x) × IsDelivery a x
  unfolding process_result
  process_result-IsDelivery none m h = absurd (ground arith)
  process_result-IsDelivery (some node) m h = elim (Option-cases (plist.array_item node 1)) [
    | inl missing ↦ absurd (ground arith)
    | inr (x, e) ↦ (
      x,
      ground arith,
      record { node = node; there = refl; named = ground arith; pair = ground arith; item = e },
    )
  ]

module _ {P C : Type 0} (plist : Plist P) (channel : Channel P C) where
  -- A dictionary that device_link_service_send_process_message has sent is received as it was: on a
  -- channel that is not NULL, the call sends one array for the dictionary, and the reception of
  -- that array by device_link_service_receive_process_message returns success and the dictionary.
  -- libplist is assumed to give back the items of an array and the text of a string.
  pub receive-send_process_message :
      (laws : PlistLaws plist) (m : P) (c d d' : C)
      → channel.is_null c ≡ false
      → channel.is_null d ≡ false
      → is_dict (plist.node_type m) ≡ true
      → channel.receive_plist d
        ≡ ret (PlistServiceError.success, some (process_message plist m), d')
      → (device_link_service_send_process_message plist channel (some c) (some m)
          ≡ send_to plist channel c (some (process_message plist m)))
        × (device_link_service_receive_process_message plist channel (some d)
            ≡ ret (DeviceLinkError.success, some m, some d'))
  unfolding device_link_service_send_process_message device_link_service_receive_process_message
      device_link_error
  receive-send_process_message laws m c d d' hc hd dict got = (
    ground (arith, hc, dict),
    ground (arith, hd, got, process_result-process_message plist laws m),
  )

  -- When device_link_service_receive_process_message returns success, a property list was
  -- received that is a DLMessageProcessMessage of exactly two items, and the result is the second.
  receive_process_message-IsDelivery :
      (c : C) (m : Option P) (c' : Option C)
      → device_link_service_receive_process_message plist channel (some c)
        ≡ ret (DeviceLinkError.success, m, c')
      → (a : Option P) × (d : C) × (x : P) × (channel.receive_plist c
          ≡ ret (PlistServiceError.success, a, d))
        × (c' ≡ some d)
        × (m ≡ some x)
        × IsDelivery plist a x
  unfolding device_link_service_receive_process_message
  receive_process_message-IsDelivery c m c' h = elim (Bool-cases (channel.is_null c)) [
    | inl null ↦ absurd (ground arith)
    | inr there ↦
        let (r, got, rest) =
          >>=-eq-ret (channel.receive_plist c) _
            (rw (there, device_link_service_receive_process_message) at h) in
        let result : process_result plist r.1 ≡ (DeviceLinkError.success, m) =
          ground (arith, rest) in
        let (x, e, p) = process_result-IsDelivery plist r.1 m result in
        (
          r.1,
          r.2,
          x,
          ground (arith, got, rest, device_link_error-success r.0),
          ground (arith, rest),
          e,
          p,
        )
  ]
