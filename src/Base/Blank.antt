-- ===== src/Base/Blank.antt =====
-- Python's `str.strip`.
pub mod Sizes
pub mod Plain
use Prim.Native.Char.{Char, code}
use Prim.Native.String.{[] as empty_text, ◌∷◌ as ◌▸◌}
use alharistech_platform.Base.{
  ℕ, String, ◌≡◌, refl, Bool, ◌&&◌, ◌||◌, leb, if◌then◌else◌, arith, ap, ◌∙◌, Bool-cases, inl, inr,
}

abbrev between : ℕ → ℕ → ℕ → Bool
between a b c = leb a c && leb c b

-- `str.isspace` of one character
unfoldable pub is_space : ℕ → Bool
is_space c =
    between 9 13 c
    || between 28 32 c
    || between 133 133 c
    || between 160 160 c
    || between 5760 5760 c
    || between 8192 8202 c
    || between 8232 8233 c
    || between 8239 8239 c
    || between 8287 8287 c
    || between 12288 12288 c

module _ (p : Char → Bool) where
  strip_left : String → String
  strip_left empty_text = empty_text
  strip_left (c ▸ s) = let rest = strip_left s in if p c then rest else c ▸ s

  -- `c` before the text, unless all of it is blank.
  before : Char → String → String
  before c empty_text = if p c then empty_text else c ▸ empty_text
  before c (d ▸ s) = c ▸ d ▸ s

  strip_right : String → String
  unfolding before
  strip_right empty_text = empty_text
  strip_right (c ▸ s) = before c (strip_right s)

  strip_both : String → String
  unfolding strip_left strip_right
  strip_both s = strip_left (strip_right s)

  strip_left-before :
      (c : Char) (s : String) → strip_left (before c s) ≡ (if p c then strip_left s else before c s)
  unfolding strip_left before
  strip_left-before c empty_text = elim (Bool-cases (p c)) [ inl e ↦ simp e | inr e ↦ simp e ]
  strip_left-before c (d ▸ s) = ground arith

  strip_left-strip_left : (s : String) → strip_left (strip_left s) ≡ strip_left s
  unfolding strip_left
  strip_left-strip_left empty_text = refl
  strip_left-strip_left (c ▸ s) = ground (arith, strip_left-strip_left s)

  strip_right-before : (c : Char) (s : String) → strip_right (before c s) ≡ before c (strip_right s)
  unfolding strip_right before
  strip_right-before c empty_text = elim (Bool-cases (p c)) [ inl e ↦ simp e | inr e ↦ simp e ]
  strip_right-before c (d ▸ s) = refl

  strip_right-strip_right : (s : String) → strip_right (strip_right s) ≡ strip_right s
  unfolding strip_right
  strip_right-strip_right empty_text = refl
  strip_right-strip_right (c ▸ s) =
      strip_right-before c (strip_right s) ∙ ap (before c) (strip_right-strip_right s)

  strip_right-strip_left : (s : String) → strip_right (strip_left s) ≡ strip_left (strip_right s)
  unfolding strip_left strip_right
  strip_right-strip_left empty_text = refl
  strip_right-strip_left (c ▸ s) =
      ground (arith, strip_right-strip_left s, strip_left-before c (strip_right s))

  strip_both-strip_both : (s : String) → strip_both (strip_both s) ≡ strip_both s
  unfolding strip_both
  strip_both-strip_both s =
      ap strip_left
        (strip_right-strip_left (strip_right s) ∙ ap strip_left (strip_right-strip_right s))
      ∙ strip_left-strip_left (strip_right s)

unfoldable pub strip : String → String
unfolding strip_both is_space
strip s = strip_both (λ c. is_space (code c)) s

pub strip-strip : (s : String) → strip (strip s) ≡ strip s
unfolding strip
strip-strip s = strip_both-strip_both _ s

strip_runs : strip "  a b\n" ≡ "a b"
unfolding strip
strip_runs = refl
