-- ===== src/Examples/Nodes.antt =====
-- Property lists with dictionaries, and a lockdownd that has its answers ready.
use libimobiledevice.Common.{
  ℕ, zero, suc, ◌≡◌, refl, ◌≢◌, Bool, true, false, List, [], ◌∷◌, ◌++◌, Option, none, some, arith,
  inl, inr, Bool-cases, if◌then◌else◌,
}
use libimobiledevice.Common.Bytes.{bytes_eq, bytes_eq_refl, bytes_eq→eq}
use libimobiledevice.Common.Run.{Run, ret}
use libimobiledevice.PlistService.{PlistServiceError}
use libimobiledevice.PlistService.Secure.{SecureChannel}
use libimobiledevice.DeviceLink.{Text, NodeType, Plist}
use libimobiledevice.Dictionary.{Dicts}
use libimobiledevice.Dictionary.Laws.{DictLaws}

-- An array is a chain of its items, a dictionary one of its entries, the newest first.
pub data Node : Type 0 where
  end empty : Node
  item : Node → Node → Node
  entry : Text → Node → Node → Node
  text : Text → Node
  number : ℕ → Node
  truth : Bool → Node
  blob : List ℕ → Node

abbrev type_of : Node → NodeType
type_of Node.end = NodeType.array
type_of Node.empty = NodeType.dict
type_of (Node.item a b) = NodeType.array
type_of (Node.entry k a b) = NodeType.dict
type_of (Node.text t) = NodeType.string
type_of (Node.number n) = NodeType.uint
type_of (Node.truth b) = NodeType.boolean
type_of (Node.blob bs) = NodeType.bytes

abbrev size_of : Node → ℕ
size_of (Node.item a b) = suc (size_of b)
size_of _ = 0

abbrev item_at : Node → ℕ → Option Node
item_at (Node.item a b) zero = some a
item_at (Node.item a b) (suc n) = item_at b n
item_at _ n = none

abbrev entry_at : Node → Text → Option Node
entry_at (Node.entry k a b) j = if bytes_eq k j then some a else entry_at b j
entry_at _ j = none

abbrev without : Node → Text → Node
without (Node.entry k a b) j =
    let rest = without b j in if bytes_eq k j then rest else Node.entry k a rest
without n j = n

abbrev text_in : Node → Option Text
text_in (Node.text t) = some t
text_in _ = none

abbrev number_in : Node → Option ℕ
number_in (Node.number n) = some n
number_in _ = none

abbrev truth_in : Node → Option Bool
truth_in (Node.truth b) = some b
truth_in _ = none

abbrev blob_in : Node → Option (List ℕ)
blob_in (Node.blob bs) = some bs
blob_in _ = none

abbrev pub array_of : List Node → Node
array_of [] = Node.end
array_of (a ∷ l) = Node.item a (array_of l)

abbrev pub dict_of : List (Text × Node) → Node
dict_of [] = Node.empty
dict_of ((k, a) ∷ l) = Node.entry k a (dict_of l)

abbrev node_plist : Plist Node
node_plist = record {
  node_type = type_of;
  array_size = size_of;
  array_item = item_at;
  string_val = text_in;
  uint_val = number_in;
  bool_val = truth_in;
  new_array = array_of;
  new_string = Node.text;
  new_uint = Node.number;
  new_bool = Node.truth;
}

abbrev pub nodes : Dicts Node
nodes = record {
  plist = node_plist;
  new_dict = Node.empty;
  get_item = entry_at;
  set_item = λ d k v. Node.entry k v d;
  remove_item = without;
  data_val = blob_in;
  new_data = Node.blob;
}

different : (k j : Text) → k ≢ j → bytes_eq k j ≡ false
different k j n = elim (Bool-cases (bytes_eq k j)) [
  | inl t ↦ absurd (n (bytes_eq→eq k j t))
  | inr f ↦ f
]

get-remove : (d : Node) (k : Text) → entry_at (without d k) k ≡ none
get-remove (Node.entry j a b) k = ground (arith, get-remove b k, Bool-cases (bytes_eq j k))
get-remove Node.end k = refl
get-remove Node.empty k = refl
get-remove (Node.item a b) k = refl
get-remove (Node.text t) k = refl
get-remove (Node.number n) k = refl
get-remove (Node.truth b) k = refl
get-remove (Node.blob bs) k = refl

get-remove-other : (d : Node) (k j : Text) → k ≢ j → entry_at (without d k) j ≡ entry_at d j
get-remove-other (Node.entry i a b) k j n = elim (Bool-cases (bytes_eq i k)) [
  | inl t ↦
      let d : bytes_eq i j ≡ false = rw (bytes_eq→eq i k t) (different k j n) in
      ground (arith, t, d, get-remove-other b k j n)
  | inr f ↦ ground (arith, f, get-remove-other b k j n)
]
get-remove-other Node.end k j n = refl
get-remove-other Node.empty k j n = refl
get-remove-other (Node.item a b) k j n = refl
get-remove-other (Node.text t) k j n = refl
get-remove-other (Node.number n) k j m = refl
get-remove-other (Node.truth b) k j n = refl
get-remove-other (Node.blob bs) k j n = refl

pub nodes-DictLaws : DictLaws nodes
nodes-DictLaws = record {
  get-new = λ k. refl;
  get-set = λ d k v. rw (bytes_eq_refl k) refl;
  get-set-other = λ d k j v n. rw (different k j n) refl;
  get-remove = get-remove;
  get-remove-other = get-remove-other;
  string_type = λ t. refl;
  string_back = λ t. refl;
}

-- What was sent, what is to be received, and whether SSL is on.
pub record Phone : Type 0 where
  pub outbox : List Node
  pub inbox : List Node
  pub secure : Bool

abbrev pub phone : List Node → List Node → Bool → Phone
phone outbox inbox secure = record { outbox = outbox; inbox = inbox; secure = secure }

abbrev receive_from : List Node → List Node → Bool → Run (PlistServiceError × Option Node × Phone)
receive_from outbox [] secure =
    ret (PlistServiceError.receive_timeout, none, phone outbox [] secure)
receive_from outbox (a ∷ l) secure = ret (PlistServiceError.success, some a, phone outbox l secure)

-- Every new connection has the answers in the list to give.
abbrev pub answers : List Node → SecureChannel Node Phone
answers inbox = record {
  is_null = λ c. false;
  send_xml_plist =
      λ c p. ret (PlistServiceError.success, phone (c.outbox ++ (p ∷ [])) c.inbox c.secure);
  receive_plist = λ c. receive_from c.outbox c.inbox c.secure;
  enable_ssl = λ c. ret (PlistServiceError.success, phone c.outbox c.inbox true);
  disable_ssl = λ c. ret (PlistServiceError.success, phone c.outbox c.inbox false);
  client_new = λ port ssl. ret (PlistServiceError.success, phone [] inbox ssl);
  client_free = λ c. ret PlistServiceError.success;
}
