-- ===== src/Base/Split/Sizes.antt =====
-- How long the parts of a text are.
use Prim.Native.String.{[] as empty_text, ◌∷◌ as ◌▸◌}
use alharistech_platform.Base.{
  ℕ, suc, ◌+◌, ◌≤◌, String, Bool, true, false, Option, none, some, List, [], ◌∷◌, All,
  if◌then◌else◌, ◌≡◌, refl, arith, Bool-cases, inl, inr,
}
use alharistech_platform.Base.Split.{
  size, after_prefix, same_char, is_char, all_but_last, split_once, put_front, split_all, put_first,
}

pub size-after_prefix : (p s t : String) → after_prefix p s ≡ some t → size t + size p ≡ size s
unfolding after_prefix size
size-after_prefix empty_text s t h = ground (arith, h)
size-after_prefix (c ▸ p) empty_text t h = ground (arith, h)
size-after_prefix (c ▸ p) (d ▸ s) t h = elim (Bool-cases (same_char c d)) [
  | inl e ↦ omega (arith, size-after_prefix p s t (rw e at h))
  | inr e ↦ ground (arith, rw e at h)
]

pub size-all_but_last : (s : String) → size (all_but_last s) ≤ size s
unfolding all_but_last size
size-all_but_last empty_text = omega arith
size-all_but_last (c ▸ empty_text) = omega arith
size-all_but_last (c ▸ d ▸ s) = omega (arith, size-all_but_last (d ▸ s))

pub some_pair :
    {A B : Type 0} (x a : A) (y b : B)
    → ◌≡◌ {A = Option (A × B)} (some (x, y)) (some (a, b))
    → (x ≡ a) × (y ≡ b)
some_pair x a y b h = (ground (arith, h), ground (arith, h))

pub size-split_once :
    (p s a b : String) → split_once p s ≡ some (a, b) → size a + size p + size b ≡ size s
unfolding split_once size
size-split_once p empty_text a b h = ground (arith, h)
size-split_once p (c ▸ s) a b h =
    by_prefix (after_prefix p (c ▸ s)) refl (split_once p s) (λ x y. size-split_once p s x y) h
  where
    by_prefix :
        (o : Option String)
        → after_prefix p (c ▸ s) ≡ o
        → (r : Option (String × String))
        → ((x y : String) → r ≡ some (x, y) → size x + size p + size y ≡ size s)
        → elim o as (λ o. Option (String × String)) [
          | some b ↦ some (empty_text, b)
          | none ↦ put_front c r
        ]
          ≡ some (a, b)
        → size a + size p + size b ≡ suc (size s)
    by_prefix (some t) e r f h =
        let same = some_pair empty_text a t b h in
        let whole : size t + size p ≡ suc (size s) = size-after_prefix p (c ▸ s) t e in
        rw (← same.0, ← same.1) (omega (arith, whole))
    by_prefix none e none f h = ground (arith, h)
    by_prefix none e (some (x, y)) f h =
        let same = some_pair (c ▸ x) a y b h in rw (← same.0, ← same.1) (omega (arith, f x y refl))

pub All-map :
    {A : Type 0} {P Q : A → Type 0} (xs : List A) → ((x : A) → P x → Q x) → All P xs → All Q xs
All-map [] f h = tt
All-map (x ∷ xs) f (p, h) = (f x p, All-map xs f h)

-- No part is longer than the text.
pub size-split_all : (a : ℕ) (s : String) → All (λ part. size part ≤ size s) (split_all a s)
unfolding split_all size
size-split_all a empty_text = (omega arith, tt)
size-split_all a (c ▸ s) = by_char (is_char a c) (split_all a s) (size-split_all a s)
  where
    by_char :
        (b : Bool) (parts : List String)
        → All (λ part. size part ≤ size s) parts
        → All
            (λ part. size part ≤ suc (size s))
            (if b then empty_text ∷ parts else put_first c parts)
    by_char true parts h = (omega arith, All-map parts (λ part k. omega (arith, k)) h)
    by_char false [] h = (omega arith, tt)
    by_char false (part ∷ parts) (k, h) =
        (omega (arith, k), All-map parts (λ part k. omega (arith, k)) h)
