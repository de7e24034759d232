-- ===== src/Afc/Strings.antt =====
-- src/afc.c: the parsers of replies that are strings one after the other, each ended by a zero.
pub mod Split
pub mod Dictionary
use libimobiledevice.Common.{
  ℕ, zero, suc, ◌+◌, ◌-◌, ◌*◌, ◌%◌, ◌^◌, Bool, true, false, ◌&&◌, ◌||◌, List, [], ◌∷◌, Option, none,
  some, ltb, leb, ◌==◌, if◌then◌else◌,
}
use libimobiledevice.Common.Bytes.{length, bytes_eq}
use libimobiledevice.Common.Run.{Run, ret, hangs, faults, ◌>>=◌}

abbrev pub Text : Type 0
Text = List ℕ

unfoldable pub count_nullspaces : List ℕ → ℕ
count_nullspaces [] = 0
count_nullspaces (b ∷ bs) = if b == 0 then suc (count_nullspaces bs) else count_nullspaces bs

-- The bytes before the first zero and those after it: what strdup copies, and where the next
-- string begins. `none` when there is no zero before the end of the buffer.
unfoldable pub split_string : List ℕ → Option (Text × List ℕ)
split_string [] = none
split_string (b ∷ bs) =
    if b == 0
    then some ([], bs)
    else elim (split_string bs) [ none ↦ none | some (s, rest) ↦ some (b ∷ s, rest) ]

-- The loop over `nulls`. strdup reads past the buffer when no zero is left in it.
unfoldable pub copy_strings : ℕ → List ℕ → Run (List Text)
copy_strings zero tokens = ret []
copy_strings (suc n) tokens = elim (split_string tokens) [
  | none ↦ faults
  | some (s, rest) ↦ copy_strings n rest >>= λ l. ret (s ∷ l)
]

-- `none` is NULL. A buffer that is NULL has no bytes.
unfoldable pub make_strings_list : List ℕ → Run (Option (List Text))
make_strings_list [] = ret none
make_strings_list (b ∷ bs) = copy_strings (count_nullspaces (b ∷ bs)) (b ∷ bs) >>= λ l. ret (some l)

-- isspace in the C locale.
unfoldable pub is_space : ℕ → Bool
is_space b = b == 32 || (leb 9 b && leb b 13)

unfoldable pub is_digit : ℕ → Bool
is_digit b = leb b'0' b && leb b b'9'

unfoldable pub skip_spaces : Text → Text
skip_spaces [] = []
skip_spaces (b ∷ bs) = if is_space b then skip_spaces bs else b ∷ bs

-- strtoull over the digits in base 10: the value, unbounded, and what follows them.
unfoldable pub read_digits : ℕ → Text → ℕ × Text
read_digits acc [] = (acc, [])
read_digits acc (b ∷ bs) =
    let rest = read_digits (acc * 10 + (b - b'0')) bs in if is_digit b then rest else (acc, b ∷ bs)

-- strtoull's value: at most ULLONG_MAX; a minus sign negates it in unsigned arithmetic.
unfoldable pub to_u64 : Bool → ℕ → ℕ
to_u64 negative v =
    if ltb v (2 ^ 64) then (if negative then (2 ^ 64 - v) % 2 ^ 64 else v) else 2 ^ 64 - 1

-- After an optional sign. Without a digit nothing is consumed.
unfoldable pub read_number : Bool → Text → Option ℕ
read_number negative [] = none
read_number negative (b ∷ bs) =
    if is_digit b
    then (let r = read_digits 0 (b ∷ bs) in
        elim r.1 [ [] ↦ some (to_u64 negative r.0) | _ ∷ _ ↦ none ])
    else none

unfoldable pub read_signed : Text → Option ℕ
read_signed [] = none
read_signed (b ∷ bs) =
    if b == b'-'
    then read_number true bs
    else if b == b'+'
    then read_number false bs
    else read_number false (b ∷ bs)

-- `strtoull(val, &endp, 10)` with `*endp == '\0'`: the number, if all of the text was consumed. Of
-- the empty text nothing is consumed, and its end is at once reached, with the value 0.
unfoldable pub whole_number : Text → Option ℕ
whole_number [] = some 0
whole_number (b ∷ bs) = read_signed (skip_spaces (b ∷ bs))

-- The node that is made of a value: plist_new_uint or plist_new_string.
pub data Node : Type 0 where
  uint : ℕ → Node
  string : Text → Node

unfoldable pub node_of : Text → Node
node_of val = elim (whole_number val) [ some v ↦ Node.uint v | none ↦ Node.string val ]

-- The loop of make_dictionary, with the items that plist_dict_set_item is called for, in order;
-- `none` is the NULL for a buffer that does not end with a whole pair.
unfoldable pub read_pairs : ℕ → List ℕ → Run (Option (List (Text × Node)))
read_pairs zero tokens = elim tokens [ [] ↦ ret (some []) | _ ∷ _ ↦ hangs ]
read_pairs (suc f) [] = ret (some [])
read_pairs (suc f) (b ∷ bs) = elim (split_string (b ∷ bs)) [
  | none ↦ ret none
  | some (key, rest) ↦ elim (split_string rest) [
    | none ↦ ret none
    | some (val, rest') ↦ read_pairs f rest' >>= λ r.
        ret (elim r [ none ↦ none | some items ↦ some ((key, node_of val) ∷ items) ])
  ]
]

-- Each round takes two bytes at least, so as many rounds as there are bytes are enough.
unfoldable pub make_dictionary : List ℕ → Run (Option (List (Text × Node)))
make_dictionary [] = ret none
make_dictionary (b ∷ bs) = read_pairs (length (b ∷ bs)) (b ∷ bs)

-- The search of afc_get_device_info_key through its NULL-terminated list: the string after the
-- first one that is the key. When that is the last, strdup is called on NULL.
unfoldable pub find_value : Text → List Text → Run (Option Text)
find_value key [] = ret none
find_value key (s ∷ rest) =
    if bytes_eq s key then elim rest [ [] ↦ faults | v ∷ _ ↦ ret (some v) ] else find_value key rest
