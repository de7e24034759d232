-- ===== src/Afc/Strings/Split.antt =====
-- make_strings_list reads back any list of strings, and never reads past its buffer.
use libimobiledevice.Common.{
  ℕ, zero, suc, ◌≡◌, ◌≢◌, refl, ap, ◌∙◌, List, [], ◌∷◌, ◌++◌, none, some, append_assoc, arith,
}
use libimobiledevice.Common.Run.{ret, ◌>>=◌, Ends}
use libimobiledevice.Afc.Strings.{
  Text, count_nullspaces, split_string, copy_strings, make_strings_list,
}

-- No byte of the text is 0.
abbrev pub IsText : Text → Type 0
IsText [] = Unit {0}
IsText (b ∷ bs) = (b ≢ 0) × IsText bs

abbrev pub AreTexts : List Text → Type 0
AreTexts [] = Unit {0}
AreTexts (s ∷ l) = IsText s × AreTexts l

-- The strings one after the other, each with its terminator.
abbrev pub flat : List Text → List ℕ
flat [] = []
flat (s ∷ l) = s ++ (0 ∷ flat l)

-- A terminated text at the front is split off.
pub split_string-text :
    (s : Text) (rest : List ℕ) → IsText s → split_string (s ++ (0 ∷ rest)) ≡ some (s, rest)
unfolding split_string
split_string-text [] rest h = refl
split_string-text (b ∷ bs) rest h = ground (arith, split_string-text bs rest h.1)

-- Without a zero nothing is.
split_string-none : (s : Text) → IsText s → split_string s ≡ none
unfolding split_string
split_string-none [] h = refl
split_string-none (b ∷ bs) h = ground (arith, split_string-none bs h.1)

count-text :
    (s : Text) (rest : List ℕ)
    → IsText s
    → count_nullspaces (s ++ (0 ∷ rest)) ≡ suc (count_nullspaces rest)
unfolding count_nullspaces
count-text [] rest h = refl
count-text (b ∷ bs) rest h = ground (arith, count-text bs rest h.1)

count-none : (s : Text) → IsText s → count_nullspaces s ≡ 0
unfolding count_nullspaces
count-none [] h = refl
count-none (b ∷ bs) h = ground (arith, count-none bs h.1)

copy_step :
    (n : ℕ) (tokens : List ℕ) (s : Text) (rest : List ℕ) (l : List Text)
    → split_string tokens ≡ some (s, rest)
    → copy_strings n rest ≡ ret l
    → copy_strings (suc n) tokens ≡ ret (s ∷ l)
unfolding copy_strings
copy_step n tokens s rest l e h = ground (arith, e, h)

copy_strings-flat :
    (l : List Text) (tail : Text)
    → AreTexts l
    → IsText tail
    → copy_strings (count_nullspaces (flat l ++ tail)) (flat l ++ tail) ≡ ret l
copy_strings-flat [] tail h t = rw (count-none tail t) (unfold copy_strings in refl)
copy_strings-flat (s ∷ l) tail h t =
    let e : flat (s ∷ l) ++ tail ≡ s ++ (0 ∷ (flat l ++ tail)) = append_assoc s (0 ∷ flat l) tail in
    ap (λ (d : List ℕ). copy_strings (count_nullspaces d) d) e
    ∙ rw (count-text s (flat l ++ tail) h.0) (
        copy_step (count_nullspaces (flat l ++ tail)) (s ++ (0 ∷ (flat l ++ tail))) s
          (flat l ++ tail) l (split_string-text s (flat l ++ tail) h.0)
          (copy_strings-flat l tail h.1 t))

pub make_strings_list_cons :
    (bs : List ℕ)
    → bs ≢ []
    → make_strings_list bs ≡ (copy_strings (count_nullspaces bs) bs >>= λ l. ret (some l))
unfolding make_strings_list
make_strings_list_cons [] h = absurd (h refl)
make_strings_list_cons (b ∷ bs) h = refl

-- make_strings_list returns, from a buffer that is not empty, exactly the strings that stand in it
-- one after the other, each ended by a zero. Bytes behind the last zero are passed over.
pub make_strings_list-flat :
    (l : List Text) (tail : Text)
    → AreTexts l
    → IsText tail
    → flat l ++ tail ≢ []
    → make_strings_list (flat l ++ tail) ≡ ret (some l)
make_strings_list-flat l tail h t full =
    make_strings_list_cons (flat l ++ tail) full ∙ rw (copy_strings-flat l tail h t)

-- Every buffer is such a list of strings and a tail.
pub record Parts (tokens : List ℕ) : Type 0 where
  pub strings : List Text
  pub tail : Text
  pub are_texts : AreTexts strings
  pub is_text : IsText tail
  pub whole : tokens ≡ flat strings ++ tail

pub parts : (tokens : List ℕ) → Parts tokens
parts [] = record { strings = []; tail = []; are_texts = tt; is_text = tt; whole = refl }
parts (b ∷ bs) = add_byte b bs (parts bs)
  where
    glue :
        (b : ℕ) (bs : List ℕ) (l : List Text) (t : Text)
        → AreTexts l
        → IsText t
        → bs ≡ flat l ++ t
        → b ≢ 0
        → Parts (b ∷ bs)
    glue b bs [] t ht kt e nz = record {
      strings = [];
      tail = b ∷ t;
      are_texts = tt;
      is_text = (nz, kt);
      whole = ap (◌∷◌ b) e;
    }
    glue b bs (s ∷ l) t ht kt e nz = record {
      strings = (b ∷ s) ∷ l;
      tail = t;
      are_texts = ((nz, ht.0), ht.1);
      is_text = kt;
      whole = ap (◌∷◌ b) e;
    }

    add_byte : (b : ℕ) (bs : List ℕ) → Parts bs → Parts (b ∷ bs)
    add_byte zero bs p = record {
      strings = [] ∷ p.strings;
      tail = p.tail;
      are_texts = (tt, p.are_texts);
      is_text = p.is_text;
      whole = ap (◌∷◌ 0) p.whole;
    }
    add_byte (suc n) bs p =
        glue (suc n) bs p.strings p.tail p.are_texts p.is_text p.whole (omega arith)

-- make_strings_list always returns: whatever the device sends, no string is read past the end of
-- the buffer.
make_strings_list-Ends : (tokens : List ℕ) → Ends (make_strings_list tokens)
make_strings_list-Ends [] = unfold make_strings_list in tt
make_strings_list-Ends (b ∷ bs) =
    let p = parts (b ∷ bs) in
    rw
      (
        p.whole,
        make_strings_list-flat p.strings p.tail p.are_texts p.is_text (λ e. cc (p.whole ∙ e)),
      )
      tt
