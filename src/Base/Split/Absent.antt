-- ===== src/Base/Split/Absent.antt =====
-- Texts in which a separator does not stand, and blanks around a text.
use Prim.Native.Char.{Char, code}
use Prim.Native.String.{[] as empty_text, ◌∷◌ as ◌▸◌}
use alharistech_platform.Base.{
  all_chars, ℕ, String, ◌⧺◌, Bool, true, false, ◌&&◌, Option, none, some, [], ◌∷◌, ◌≡◌, refl, ap,
  arith, leb, Bool-cases, inl, inr,
}
use alharistech_platform.Base.Split.{
  put_front, after_prefix, is_char, split_once, split_all, put_front,
}

code_eq : (a b : ℕ) → (leb a b && leb b a) ≡ true → a ≡ b
code_eq a b h = ground (arith, h)

is_char_self : (a : ℕ) → (leb a a && leb a a) ≡ true
is_char_self a = ground arith

module _ (p : ℕ → Bool) where
  pub absent_char : (a : ℕ) (d : Char) → p a ≡ false → p (code d) ≡ true → is_char a d ≡ false
  absent_char a d h k = elim (Bool-cases (is_char a d)) [
    | inl e ↦ ground (arith, h, k, ap p (code_eq a (code d) e))
    | inr e ↦ e
  ]

  no_prefix :
      (c : Char) (q s : String)
      → p (code c) ≡ false
      → all_chars p s ≡ true
      → after_prefix (c ▸ q) s ≡ none
  unfolding after_prefix
  no_prefix c q empty_text h k = refl
  no_prefix c q (d ▸ s) h k = rw (absent_char (code c) d h (ground (arith, k))) refl

  -- A separator whose first character does not stand in a text.
  pub split_once-absent :
      (c : Char) (q s : String)
      → p (code c) ≡ false
      → all_chars p s ≡ true
      → split_once (c ▸ q) s ≡ none
  unfolding split_once
  split_once-absent c q empty_text h k = refl
  split_once-absent c q (d ▸ s) h k =
      later (after_prefix (c ▸ q) (d ▸ s)) (split_once (c ▸ q) s) (no_prefix c q (d ▸ s) h k)
        (split_once-absent c q s h (ground (arith, k)))
    where
      later :
          (o : Option String) (r : Option (String × String))
          → o ≡ none
          → r ≡ none
          → elim o as (λ o. Option (String × String)) [
            | some b ↦ some (empty_text, b)
            | none ↦ put_front d r
          ]
            ≡ none
      later (some b) r e f = ground (arith, e)
      later none r e f = ap (put_front d) f

  pub split_all-absent :
      (a : ℕ) (s : String) → p a ≡ false → all_chars p s ≡ true → split_all a s ≡ s ∷ []
  unfolding split_all
  split_all-absent a empty_text h k = refl
  split_all-absent a (d ▸ s) h k =
      rw (absent_char a d h (ground (arith, k)), split_all-absent a s h (ground (arith, k))) refl

  -- A part without the separator, before the others.
  pub split_all-part :
      (c : Char) (s t : String)
      → p (code c) ≡ false
      → all_chars p s ≡ true
      → split_all (code c) (s ⧺ c ▸ t) ≡ s ∷ split_all (code c) t
  unfolding split_all
  split_all-part c empty_text t h k = rw (is_char_self (code c)) refl
  split_all-part c (d ▸ s) t h k =
      rw (absent_char (code c) d h (ground (arith, k)), split_all-part c s t h (ground (arith, k)))
        refl
