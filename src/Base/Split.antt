-- ===== src/Base/Split.antt =====
-- Python's `str.split`, `startswith`, `in` and slices of texts, by characters.
pub mod Sizes
pub mod Absent
use Prim.Native.Char.{Char, code}
use Prim.Native.String.{[] as empty_text, ◌∷◌ as ◌▸◌, ◌++◌}
use alharistech_platform.Base.{
  ℕ, zero, suc, ◌+◌, ◌≤◌, ◌<◌, String, Bool, true, false, ◌&&◌, Option, none, some, List, [], ◌∷◌,
  leb, if◌then◌else◌, ◌≡◌, refl, arith, Bool-cases, inl, inr,
}

abbrev pub is_char : ℕ → Char → Bool
is_char a c = leb a (code c) && leb (code c) a

abbrev pub same_char : Char → Char → Bool
same_char c d = is_char (code c) d

-- `len(s)`
unfoldable pub size : String → ℕ
size empty_text = 0
size (c ▸ s) = suc (size s)

-- What follows the prefix `p`, if the text begins with it.
unfoldable pub after_prefix : String → String → Option String
after_prefix empty_text s = some s
after_prefix (c ▸ p) empty_text = none
after_prefix (c ▸ p) (d ▸ s) = let rest = after_prefix p s in if same_char c d then rest else none

-- `s[:-1]`
unfoldable pub all_but_last : String → String
all_but_last empty_text = empty_text
all_but_last (c ▸ empty_text) = empty_text
all_but_last (c ▸ s) = c ▸ all_but_last s

unfoldable pub ends_in : ℕ → String → Bool
ends_in a empty_text = false
ends_in a (c ▸ empty_text) = is_char a c
ends_in a (c ▸ s) = ends_in a s

abbrev put_front : Char → Option (String × String) → Option (String × String)
put_front c none = none
put_front c (some (a, b)) = some (c ▸ a, b)

-- `s.split(p, 1)`, where the text has the separator, which is not empty; `none` where it has not.
unfoldable pub split_once : String → String → Option (String × String)
unfolding after_prefix
split_once p empty_text = none
split_once p (c ▸ s) =
    let rest = split_once p s in
    elim (after_prefix p (c ▸ s)) [ some b ↦ some (empty_text, b) | none ↦ put_front c rest ]

abbrev put_first : Char → List String → List String
put_first c [] = (c ▸ empty_text) ∷ []
put_first c (part ∷ parts) = (c ▸ part) ∷ parts

-- `s.split(c)` with a separator of one character
unfoldable pub split_all : ℕ → String → List String
split_all a empty_text = empty_text ∷ []
split_all a (c ▸ s) =
    let parts = split_all a s in if is_char a c then empty_text ∷ parts else put_first c parts
