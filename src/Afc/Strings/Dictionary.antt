-- ===== src/Afc/Strings/Dictionary.antt =====
-- make_dictionary reads back any list of pairs of strings, and always comes to its end.
use libimobiledevice.Common.{
  ℕ, zero, suc, ◌≤◌, ◌<◌, ◌≡◌, List, [], ◌∷◌, ◌++◌, some, arith, inl, inr, Option-cases,
}
use libimobiledevice.Common.Bytes.{length}
use libimobiledevice.Common.Run.{Ends, Ends->>=}
use libimobiledevice.Afc.Strings.{Text, Node, node_of, split_string, read_pairs, make_dictionary}
use libimobiledevice.Afc.Strings.Split.{IsText}

abbrev pub Pairs : Type 0
Pairs = List (Text × Text)

abbrev pub ArePairs : Pairs → Type 0
ArePairs [] = Unit {0}
ArePairs (p ∷ ps) = IsText p.0 × IsText p.1 × ArePairs ps

abbrev pub flat_pairs : Pairs → List ℕ
flat_pairs [] = []
flat_pairs (p ∷ ps) = p.0 ++ (0 ∷ (p.1 ++ (0 ∷ flat_pairs ps)))

-- The items of a dictionary: each key with the node of its value.
abbrev pub items : Pairs → List (Text × Node)
items [] = []
items (p ∷ ps) = (p.0, node_of p.1) ∷ items ps

split_string_shorter :
    (tokens : List ℕ) (s : Text) (rest : List ℕ)
    → split_string tokens ≡ some (s, rest)
    → length rest < length tokens
unfolding split_string
split_string_shorter [] s rest h = ground arith
split_string_shorter (b ∷ bs) s rest h = elim (Option-cases (split_string bs)) [
  | inl e ↦ ground arith
  | inr (p, e) ↦ ground (arith, split_string_shorter bs p.0 p.1)
]

read_pairs-Ends : (f : ℕ) (tokens : List ℕ) → length tokens ≤ f → Ends (read_pairs f tokens)
unfolding read_pairs
read_pairs-Ends zero [] k = tt
read_pairs-Ends zero (b ∷ bs) k = absurd (omega arith)
read_pairs-Ends (suc f) [] k = tt
read_pairs-Ends (suc f) (b ∷ bs) k = elim (Option-cases (split_string (b ∷ bs))) [
  | inl e ↦ rw (e, read_pairs) tt
  | inr (p, e) ↦ elim (Option-cases (split_string p.1)) [
    | inl e' ↦ rw (e, e', read_pairs) tt
    | inr (q, e') ↦
        rw (e, e', read_pairs)
          (Ends->>= (read_pairs f q.1) _
            (read_pairs-Ends f q.1 (
              omega (
                arith,
                split_string_shorter (b ∷ bs) p.0 p.1 e,
                split_string_shorter p.1 q.0 q.1 e',
              )))
            λ r h. tt)
  ]
]

-- make_dictionary returns on every buffer, well formed or not, and reads nothing past its end.
make_dictionary-Ends : (tokens : List ℕ) → Ends (make_dictionary tokens)
unfolding make_dictionary
make_dictionary-Ends [] = tt
make_dictionary-Ends (b ∷ bs) = read_pairs-Ends (length (b ∷ bs)) (b ∷ bs) (omega arith)
