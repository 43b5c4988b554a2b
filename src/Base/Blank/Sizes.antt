-- ===== src/Base/Blank/Sizes.antt =====
-- Stripping a text makes it no longer.
use Prim.Native.Char.{Char}
use Prim.Native.String.{[] as empty_text, ◌∷◌ as ◌▸◌}
use alharistech_platform.Base.{suc, ◌≤◌, String, Bool, arith, Bool-cases, inl, inr}
use alharistech_platform.Base.Blank.{strip, strip_both, strip_left, strip_right, before}
use alharistech_platform.Base.Split.{size}

module _ (p : Char → Bool) where
  size-strip_left : (s : String) → size (strip_left p s) ≤ size s
  unfolding strip_left size
  size-strip_left empty_text = omega arith
  size-strip_left (c ▸ s) = ground (arith, size-strip_left s)

  size-before : (c : Char) (s : String) → size (before p c s) ≤ suc (size s)
  unfolding before size
  size-before c empty_text = elim (Bool-cases (p c)) [
    | inl e ↦ rw e (omega arith)
    | inr e ↦ rw e (omega arith)
  ]
  size-before c (d ▸ s) = omega arith

  size-strip_right : (s : String) → size (strip_right p s) ≤ size s
  unfolding strip_right size
  size-strip_right empty_text = omega arith
  size-strip_right (c ▸ s) = omega (arith, size-before c (strip_right p s), size-strip_right s)

pub size-strip : (s : String) → size (strip s) ≤ size s
unfolding strip strip_both
size-strip s = omega (arith, size-strip_left _ (strip_right _ s), size-strip_right _ s)
