-- ===== src/Base/Blank/Plain.antt =====
-- Texts without blanks, and blanks around them.
use Prim.Native.Char.{Char, code}
use Prim.Native.String.{[] as empty_text, ◌∷◌ as ◌▸◌}
use alharistech_platform.Base.{
  all_chars, ℕ, String, ◌⧺◌, Bool, true, false, not, ◌&&◌, ◌≡◌, refl, ap, ◌∙◌, arith,
}
use alharistech_platform.Base.Blank.{
  strip, strip_both, strip_left, strip_right, before, is_space, strip_left-before,
}

abbrev pub no_space : ℕ → Bool
no_space c = not (is_space c)

abbrev blank : Char → Bool
blank c = is_space (code c)

not-false : (b : Bool) → not b ≡ true → b ≡ false
not-false true h = ground (arith, h)
not-false false h = refl

before-plain : (c : Char) (s : String) → is_space (code c) ≡ false → before blank c s ≡ c ▸ s
unfolding before
before-plain c empty_text h = rw h refl
before-plain c (d ▸ s) h = refl

pub and_left : (a b : Bool) → (a && b) ≡ true → a ≡ true
and_left true b h = refl
and_left false b h = h

pub and_right : (a b : Bool) → (a && b) ≡ true → b ≡ true
and_right true b h = h
and_right false b h = ground (arith, h)

module _ (e : Char) (h : is_space (code e) ≡ true) where
  strip_right-after :
      (s : String) → all_chars no_space s ≡ true → strip_right blank (s ⧺ e ▸ empty_text) ≡ s
  unfolding strip_right before
  strip_right-after empty_text k = rw h refl
  strip_right-after (c ▸ s) k =
      rw (strip_right-after s (and_right (no_space (code c)) _ k))
        (before-plain c s (not-false _ (and_left (no_space (code c)) _ k)))

strip_right-plain : (s : String) → all_chars no_space s ≡ true → strip_right blank s ≡ s
unfolding strip_right before
strip_right-plain empty_text k = refl
strip_right-plain (c ▸ s) k =
    rw (strip_right-plain s (and_right (no_space (code c)) _ k))
      (before-plain c s (not-false _ (and_left (no_space (code c)) _ k)))

strip_left-plain : (s : String) → all_chars no_space s ≡ true → strip_left blank s ≡ s
unfolding strip_left
strip_left-plain empty_text k = refl
strip_left-plain (c ▸ s) k = rw (not-false _ (and_left (no_space (code c)) _ k)) refl

-- A text without blanks stays as it is.
pub strip-plain : (s : String) → all_chars no_space s ≡ true → strip s ≡ s
unfolding strip strip_both
strip-plain s k = ap (strip_left blank) (strip_right-plain s k) ∙ strip_left-plain s k

-- Blanks around a text without any go.
pub strip-padded :
    (d e : Char) (s : String)
    → is_space (code d) ≡ true
    → is_space (code e) ≡ true
    → all_chars no_space s ≡ true
    → strip (d ▸ s ⧺ e ▸ empty_text) ≡ s
unfolding strip strip_both strip_right
strip-padded d e s h k l =
    ap (λ t. strip_left blank (before blank d t)) (strip_right-after e k s l)
    ∙ strip_left-before blank d s
    ∙ rw h (strip_left-plain s l)

strip_right-end :
    (d : Char) (s : String)
    → is_space (code d) ≡ false
    → strip_right blank (s ⧺ d ▸ empty_text) ≡ s ⧺ d ▸ empty_text
unfolding strip_right before
strip_right-end d empty_text h = rw h refl
strip_right-end d (c ▸ empty_text) h = ap (before blank c) (strip_right-end d empty_text h)
strip_right-end d (c ▸ b ▸ s) h = ap (before blank c) (strip_right-end d (b ▸ s) h)

-- A text that begins and ends with no blank stays as it is.
pub strip-ends :
    (c d : Char) (s : String)
    → is_space (code c) ≡ false
    → is_space (code d) ≡ false
    → strip (c ▸ s ⧺ d ▸ empty_text) ≡ c ▸ s ⧺ d ▸ empty_text
unfolding strip strip_both strip_left
strip-ends c d s h k = ap (strip_left blank) (strip_right-end d (c ▸ s) k) ∙ rw h refl
