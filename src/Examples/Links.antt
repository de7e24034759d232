-- ===== src/Examples/Links.antt =====
-- The theorems on device link messages.
use libimobiledevice.Common.{
  ℕ, zero, suc, ◌≡◌, refl, Bool, false, List, [], ◌∷◌, ◌++◌, Option, none, some, arith, inl,
}
use libimobiledevice.Common.Bytes.{length}
use libimobiledevice.Common.Run.{Run, ret}
use libimobiledevice.PlistService.{PlistServiceError, Channel}
use libimobiledevice.DeviceLink.{
  Text, DeviceLinkError, NodeType, device_link_error, Plist, version_exchange_name,
  device_ready_name, process_message_name, is_dl_name, is_message,
}
use libimobiledevice.DeviceLink.Message.{
  name_of, device_link_service_get_message, version_in, versions_ok, process_result, is_later,
  version_error, ready_error,
}
use libimobiledevice.DeviceLink.Exchange.{
  await_ready, accept_version, send_to, device_link_service_version_exchange,
  device_link_service_send_process_message, device_link_service_receive_process_message,
}
use libimobiledevice.DeviceLink.Version.{Handshake, version_exchange-Handshake}
use libimobiledevice.DeviceLink.Process.{PlistLaws, process_message, receive-send_process_message}

-- Property lists; an array is a chain of its items.
pub data Tree : Type 0 where
  end dict : Tree
  item : Tree → Tree → Tree
  text : Text → Tree
  number : ℕ → Tree
  truth : Bool → Tree

abbrev type_of : Tree → NodeType
type_of Tree.end = NodeType.array
type_of Tree.dict = NodeType.dict
type_of (Tree.item a b) = NodeType.array
type_of (Tree.text s) = NodeType.string
type_of (Tree.number n) = NodeType.uint
type_of (Tree.truth t) = NodeType.boolean

abbrev size_of : Tree → ℕ
size_of (Tree.item a b) = suc (size_of b)
size_of _ = 0

abbrev pub item_at : Tree → ℕ → Option Tree
item_at (Tree.item a b) zero = some a
item_at (Tree.item a b) (suc n) = item_at b n
item_at _ n = none

abbrev text_in : Tree → Option Text
text_in (Tree.text s) = some s
text_in _ = none

abbrev number_in : Tree → Option ℕ
number_in (Tree.number n) = some n
number_in _ = none

abbrev truth_in : Tree → Option Bool
truth_in (Tree.truth t) = some t
truth_in _ = none

abbrev pub array_of : List Tree → Tree
array_of [] = Tree.end
array_of (a ∷ l) = Tree.item a (array_of l)

abbrev pub tree : Plist Tree
tree = record {
  node_type = type_of;
  array_size = size_of;
  array_item = item_at;
  string_val = text_in;
  uint_val = number_in;
  bool_val = truth_in;
  new_array = array_of;
  new_string = Tree.text;
  new_uint = Tree.number;
  new_bool = Tree.truth;
}

array_of_type : (l : List Tree) → type_of (array_of l) ≡ NodeType.array
array_of_type [] = refl
array_of_type (a ∷ l) = refl

size_of-array_of : (l : List Tree) → size_of (array_of l) ≡ length l
size_of-array_of [] = refl
size_of-array_of (a ∷ l) = omega (arith, size_of-array_of l)

tree-PlistLaws : PlistLaws tree
tree-PlistLaws = record {
  array_type = array_of_type;
  array_length = size_of-array_of;
  first_item = λ a l. refl;
  second_item = λ a b l. refl;
  string_type = λ s. refl;
  string_back = λ s. refl;
}

-- What was sent, and what is to be received.
pub record Peer : Type 0 where
  pub outbox : List (Option Tree)
  pub inbox : List Tree

abbrev pub peer : List (Option Tree) → List Tree → Peer
peer outbox inbox = record { outbox = outbox; inbox = inbox }

abbrev receive_from : List (Option Tree) → List Tree → Run (PlistServiceError × Option Tree × Peer)
receive_from outbox [] = ret (PlistServiceError.receive_timeout, none, peer outbox [])
receive_from outbox (a ∷ l) = ret (PlistServiceError.success, some a, peer outbox l)

abbrev pub link : Channel Tree Peer
link = record {
  is_null = λ c. false;
  send = λ c p. ret (PlistServiceError.success, record c { outbox = c.outbox ++ (p ∷ []) });
  receive_plist = λ c. receive_from c.outbox c.inbox;
}

-- The device's version is 300.1, and the client knows 400.0.
abbrev offer : Tree
offer = array_of (Tree.text version_exchange_name ∷ Tree.number 300 ∷ Tree.number 1 ∷ [])

abbrev ready : Tree
ready = array_of (Tree.text device_ready_name ∷ [])

abbrev before : Peer
before = peer [] (offer ∷ ready ∷ [])

abbrev after : Peer
after = peer (some (versions_ok tree 400) ∷ []) []

exchanged :
    device_link_service_version_exchange tree link (some before) 400 0
    ≡ ret (DeviceLinkError.success, some after)
unfolding device_link_service_version_exchange version_error accept_version await_ready ready_error
    device_link_error is_message device_link_service_get_message name_of is_dl_name is_later
    version_in version_exchange_name device_ready_name
exchanged = refl

version_exchange-Handshake_example : Handshake tree link 400 0 before after
version_exchange-Handshake_example =
    version_exchange-Handshake tree link before 400 0 after exchanged

handshake : Handshake tree link 400 0 before after
unfolding is_message device_link_service_get_message name_of is_dl_name version_in
    version_exchange_name device_ready_name
handshake = record {
  offer = offer;
  ready = some ready;
  c1 = peer [] (ready ∷ []);
  c2 = peer (some (versions_ok tree 400) ∷ []) (ready ∷ []);
  received = refl;
  offered = record { named = refl; long = omega arith; known = inl (omega arith) };
  answered = refl;
  confirmed = refl;
  is_ready = refl;
}

abbrev process_peer : Peer
process_peer = peer [] (process_message tree Tree.dict ∷ [])

receive-send_process_message_example :
    (device_link_service_send_process_message tree link (some (peer [] [])) (some Tree.dict)
      ≡ send_to tree link (peer [] []) (some (process_message tree Tree.dict)))
    × (device_link_service_receive_process_message tree link (some process_peer)
        ≡ ret (DeviceLinkError.success, some Tree.dict, some (peer [] [])))
receive-send_process_message_example =
    receive-send_process_message tree link tree-PlistLaws Tree.dict (peer [] []) process_peer
      (peer [] []) refl refl refl refl

processed :
    device_link_service_receive_process_message tree link (some process_peer)
    ≡ ret (DeviceLinkError.success, some Tree.dict, some (peer [] []))
unfolding device_link_service_receive_process_message process_result device_link_error is_message
    device_link_service_get_message name_of is_dl_name process_message_name
processed = refl
