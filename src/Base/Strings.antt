-- ===== src/Base/Strings.antt =====
-- What the source uses of Go's strings, encoding/hex and path/filepath, on the bytes of a string.
use cote_ai_simulation.Base.{
  ℕ, zero, suc, ◌+◌, ◌-◌, ◌*◌, Bool, false, ◌&&◌, ◌||◌, leb, ◌==◌, if◌then◌else◌, List, [], ◌∷◌,
  ◌++◌, Option, some, none, get_elem?,
}
use cote_ai_simulation.Base.Bytes.{Bytes}

abbrev between : ℕ → ℕ → ℕ → Bool
between low high b = leb low b && leb b high

abbrev byte_at : Bytes → ℕ → ℕ
byte_at s i = elim (get_elem? s i) [ none ↦ 0 | some b ↦ b ]

-- `unicode.IsSpace` of the first code point: the bytes it takes, 0 where it is no space. An invalid
-- byte is a code point of its own, and no space.
unfoldable pub space_width : Bytes → ℕ
space_width [] = 0
space_width (b ∷ bs) =
    let second = byte_at bs 0 in
    let third = byte_at bs 1 in
    if (b == 32) || between 9 13 b
    then 1
    else if (b == 194) && ((second == 133) || (second == 160))
    then 2
    else if ((b == 225) && ((second == 154) && (third == 128)))
        || (((b == 226)
              && (((second == 128)
                    && (between 128 138 third || (between 168 169 third || (third == 175))))
                  || ((second == 129) && (third == 159))))
            || ((b == 227) && ((second == 128) && (third == 128))))
    then 3
    else 0

abbrev end_word : Bytes → List Bytes → List Bytes
end_word [] ws = ws
end_word (b ∷ bs) ws = (b ∷ bs) ∷ ws

-- `strings.Fields` behind the bytes of a space that are still to come, and the word begun.
unfoldable words : ℕ → Bytes → Bytes → List Bytes
unfolding space_width
words skip word [] = end_word word []
words (suc skip) word (b ∷ bs) = words skip word bs
words zero word (b ∷ bs) = elim (space_width (b ∷ bs)) [
  | zero ↦ words zero (word ++ (b ∷ [])) bs
  | suc width ↦ end_word word (words width [] bs)
]

-- `strings.Fields`
unfoldable pub fields_of : Bytes → List Bytes
unfolding words
fields_of s = words 0 [] s

unfoldable trim_left : ℕ → Bytes → Bytes
unfolding space_width
trim_left skip [] = []
trim_left (suc skip) (b ∷ bs) = trim_left skip bs
trim_left zero (b ∷ bs) = elim (space_width (b ∷ bs)) [
  | zero ↦ b ∷ bs
  | suc width ↦ trim_left width bs
]

unfoldable trim_right : Bytes → Bytes
unfolding fields_of
trim_right [] = []
trim_right (b ∷ bs) =
    let rest = trim_right bs in elim (fields_of (b ∷ bs)) [ [] ↦ [] | w ∷ ws ↦ b ∷ rest ]

-- `strings.TrimSpace`
unfoldable pub trim_space : Bytes → Bytes
unfolding trim_left trim_right
trim_space s = trim_right (trim_left 0 s)

-- `strings.Split(s, "\n")`
unfoldable pub split_lines : Bytes → List Bytes
split_lines [] = [] ∷ []
split_lines (b ∷ bs) =
    let rest = split_lines bs in
    if b == 10 then [] ∷ rest else elim rest [ [] ↦ (b ∷ []) ∷ [] | l ∷ ls ↦ (b ∷ l) ∷ ls ]

unfoldable pub has_byte : ℕ → Bytes → Bool
has_byte c [] = false
has_byte c (b ∷ bs) = (b == c) || has_byte c bs

-- The bytes without the slashes at the end.
unfoldable strip_slashes : Bytes → Bytes
strip_slashes [] = []
strip_slashes (b ∷ bs) =
    let rest = strip_slashes bs in
    elim rest [ [] ↦ if b == 47 then [] else b ∷ [] | c ∷ cs ↦ b ∷ c ∷ cs ]

-- The bytes behind the last slash.
unfoldable last_element : Bytes → Bytes
unfolding has_byte
last_element [] = []
last_element (b ∷ bs) = let rest = last_element bs in if has_byte 47 (b ∷ bs) then rest else b ∷ bs

-- `filepath.Base`, where the separator is a slash.
unfoldable pub file_base : Bytes → Bytes
unfolding strip_slashes last_element
file_base [] = 46 ∷ []
file_base (b ∷ bs) = elim (last_element (strip_slashes (b ∷ bs))) [ [] ↦ 47 ∷ [] | c ∷ cs ↦ c ∷ cs ]

abbrev hex_digit : ℕ → Option ℕ
hex_digit c =
    if between 48 57 c
    then some (c - 48)
    else if between 97 102 c
    then some (c - 87)
    else if between 65 70 c
    then some (c - 55)
    else none

-- `hex.DecodeString`
unfoldable pub unhex : Bytes → Option Bytes
unhex [] = some []
unhex (c ∷ []) = none
unhex (c ∷ c' ∷ cs) =
    let rest = unhex cs in
    elim (hex_digit c) [
      | none ↦ none
      | some h ↦ elim (hex_digit c') [
        | none ↦ none
        | some l ↦ elim rest [ none ↦ none | some bs ↦ some ((16 * h + l) ∷ bs) ]
      ]
    ]
