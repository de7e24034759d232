-- ===== src/Dictionary.antt =====
-- The calls on dictionaries of libplist, which the clients of the property list service build
-- their requests with and read their answers by.
pub mod Laws
use libimobiledevice.Common.{ℕ, Bool, true, false, List, Option, none, some, if◌then◌else◌}
use libimobiledevice.DeviceLink.{Text, NodeType, Plist, is_string}

-- `get_item` and `remove_item` are those of a dictionary; `set_item` gives the dictionary after the
-- call. plist_get_data_val leaves its results alone where `data_val` is `none`.
pub record Dicts (P : Type 0) : Type 0 where
  pub plist : Plist P
  pub new_dict : P
  pub get_item : P → Text → Option P
  pub set_item : P → Text → P → P
  pub remove_item : P → Text → P
  pub data_val : P → Option (List ℕ)
  pub new_data : List ℕ → P

abbrev pub is_boolean : NodeType → Bool
is_boolean NodeType.boolean = true
is_boolean _ = false

abbrev pub is_uint : NodeType → Bool
is_uint NodeType.uint = true
is_uint _ = false

abbrev pub is_data : NodeType → Bool
is_data NodeType.bytes = true
is_data _ = false

module _ {P : Type 0} (dicts : Dicts P) where
  -- plist_dict_get_item on a node that may be NULL.
  unfoldable pub item_in : Option P → Text → Option P
  item_in none k = none
  item_in (some d) k = dicts.get_item d k

  -- `node && plist_get_node_type(node) == PLIST_STRING`, and then the string.
  unfoldable pub string_in : Option P → Option Text
  string_in none = none
  string_in (some n) =
      if is_string (dicts.plist.node_type n) then dicts.plist.string_val n else none

  -- plist_get_string_val into a pointer that is NULL.
  unfoldable pub string_of : Option P → Option Text
  string_of none = none
  string_of (some n) = dicts.plist.string_val n

  -- The same for a PLIST_BOOLEAN, which is false when it is not there.
  unfoldable pub flag_in : Option P → Bool
  flag_in none = false
  flag_in (some n) =
      if is_boolean (dicts.plist.node_type n)
      then elim (dicts.plist.bool_val n) [ none ↦ false | some b ↦ b ]
      else false

  -- An item that is only there with a value.
  unfoldable pub set_if : P → Text → Option Text → P
  set_if d k none = d
  set_if d k (some v) = dicts.set_item d k (dicts.plist.new_string v)

  -- plist_dict_set_item with plist_new_string.
  unfoldable pub set_string : P → Text → Text → P
  set_string d k v = dicts.set_item d k (dicts.plist.new_string v)
