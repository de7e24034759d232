-- ===== src/Mobilesync/Changes.antt =====
-- Changes are received as they were sent.
use libimobiledevice.Common.{ℕ, zero, suc, ◌≡◌, Bool, true, List, [], ◌∷◌, Option, none, some}
use libimobiledevice.DeviceLink.{Text, NodeType, Plist, is_dict}

abbrev pub nth : {P : Type 0} → List P → ℕ → Option P
nth [] n = none
nth (a ∷ l) zero = some a
nth (a ∷ l) (suc n) = nth l n

-- What is documented of libplist: an array has the items that it was made of, and the nodes for
-- strings and truth values give back what they were made of.
pub record NodeLaws {P : Type 0} (plist : Plist P) : Type 0 where
  pub items : (l : List P) (n : ℕ) → plist.array_item (plist.new_array l) n ≡ nth l n
  pub string_back : (s : Text) → plist.string_val (plist.new_string s) ≡ some s
  pub string_type : (s : Text) → plist.node_type (plist.new_string s) ≡ NodeType.string
  pub bool_back : (b : Bool) → plist.bool_val (plist.new_bool b) ≡ some b

-- Actions are a dictionary, or none.
abbrev pub AreActions : {P : Type 0} → Plist P → Option P → Type 0
AreActions plist none = Unit {0}
AreActions plist (some a) = is_dict (plist.node_type a) ≡ true
