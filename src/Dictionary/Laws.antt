-- ===== src/Dictionary/Laws.antt =====
-- What libplist documents of its dictionaries, and what follows for the requests built with them.
use libimobiledevice.Common.{◌≡◌, refl, Option, none, some, ◌≢◌, arith}
use libimobiledevice.DeviceLink.{Text, NodeType}
use libimobiledevice.Dictionary.{Dicts, string_in, set_if, set_string}

-- An item that has been set is found, the others stay; a new dictionary has none; a string node
-- gives its string back.
pub record DictLaws {P : Type 0} (dicts : Dicts P) : Type 0 where
  pub get-new : (k : Text) → dicts.get_item dicts.new_dict k ≡ none
  pub get-set : (d : P) (k : Text) (v : P) → dicts.get_item (dicts.set_item d k v) k ≡ some v
  pub get-set-other :
      (d : P) (k j : Text) (v : P)
      → k ≢ j
      → dicts.get_item (dicts.set_item d k v) j ≡ dicts.get_item d j
  pub get-remove : (d : P) (k : Text) → dicts.get_item (dicts.remove_item d k) k ≡ none
  pub get-remove-other :
      (d : P) (k j : Text) → k ≢ j → dicts.get_item (dicts.remove_item d k) j ≡ dicts.get_item d j
  pub string_type : (t : Text) → dicts.plist.node_type (dicts.plist.new_string t) ≡ NodeType.string
  pub string_back : (t : Text) → dicts.plist.string_val (dicts.plist.new_string t) ≡ some t

module _ {P : Type 0} (dicts : Dicts P) (laws : DictLaws dicts) where
  pub get-set_string :
      (d : P) (k t : Text)
      → dicts.get_item (set_string dicts d k t) k ≡ some (dicts.plist.new_string t)
  unfolding set_string
  get-set_string d k t = laws.get-set d k (dicts.plist.new_string t)

  pub get-set_string-other :
      (d : P) (k j t : Text)
      → k ≢ j
      → dicts.get_item (set_string dicts d k t) j ≡ dicts.get_item d j
  unfolding set_string
  get-set_string-other d k j t n = laws.get-set-other d k j (dicts.plist.new_string t) n

  pub get-set_if-other :
      (d : P) (k j : Text) (t : Option Text)
      → k ≢ j
      → dicts.get_item (set_if dicts d k t) j ≡ dicts.get_item d j
  unfolding set_if
  get-set_if-other d k j none n = refl
  get-set_if-other d k j (some t) n = laws.get-set-other d k j (dicts.plist.new_string t) n

  pub string_in-new : (t : Text) → string_in dicts (some (dicts.plist.new_string t)) ≡ some t
  unfolding string_in
  string_in-new t = ground (arith, laws.string_type t, laws.string_back t)
