-- ===== src/Workflow/Expressions/Sizes.antt =====
-- How long the parts are that the evaluator takes expressions apart into.
use Prim.Native.Char.{Char, code}
use Prim.Native.String.{[] as empty_text, ◌∷◌ as ◌▸◌}
use alharistech_platform.Base.{
  ℕ, ◌≤◌, ◌<◌, String, Bool, true, false, not, ◌&&◌, leb, Option, none, some, OnSome, OnSome-of,
  ◌==◌, string_eq, if◌then◌else◌, arith,
}
use alharistech_platform.Base.Split.{size, split_once, is_char}
use alharistech_platform.Base.Split.Sizes.{size-split_once}
use alharistech_platform.Workflow.Expressions.Paths.{is_word}
use alharistech_platform.Workflow.Expressions.Simple.{
  word_span, put_word, before_last_paren, non_empty, call_argument,
}

pub OnSome-map :
    {A : Type 0} (P Q : A → Type 0) (o : Option A) → ((a : A) → P a → Q a) → OnSome P o → OnSome Q o
OnSome-map P Q none f h = tt
OnSome-map P Q (some a) f h = f a h

abbrev pub RestWithin : String → (String × String) → Type 0
RestWithin s p = size p.1 ≤ size s

put_word-RestWithin :
    (c : Char) (s : String) (o : Option (String × String))
    → OnSome (RestWithin s) o
    → OnSome (RestWithin (c ▸ s)) (put_word c o)
unfolding size
put_word-RestWithin c s none h = tt
put_word-RestWithin c s (some (w, rest)) h = omega (arith, h)

pub word_span-RestWithin : (s : String) → OnSome (RestWithin s) (word_span s)
unfolding word_span
word_span-RestWithin empty_text = omega arith
word_span-RestWithin (c ▸ s) =
    by_char (leb 128 (code c)) (is_word (code c)) (word_span s) (word_span-RestWithin s)
  where
    by_char :
        (b d : Bool) (rest : Option (String × String))
        → OnSome (RestWithin s) rest
        → OnSome
            (RestWithin (c ▸ s))
            (if b then none else if d then put_word c rest else some (empty_text, c ▸ s))
    by_char true d rest h = tt
    by_char false true rest h = put_word-RestWithin c s rest h
    by_char false false rest h = omega arith

abbrev pub Shorter : String → String → Type 0
Shorter s t = size t < size s

before_last_paren-Shorter : (s : String) → OnSome (Shorter s) (before_last_paren s)
unfolding before_last_paren size
before_last_paren-Shorter empty_text = tt
before_last_paren-Shorter (c ▸ s) =
    by_char (is_char b'\n' c) (is_char b')' c) (before_last_paren s) (before_last_paren-Shorter s)
  where
    by_char :
        (b d : Bool) (rest : Option String)
        → OnSome (Shorter s) rest
        → OnSome (Shorter (c ▸ s)) (
            if b
            then none
            else elim rest [ some t ↦ some (c ▸ t) | none ↦ if d then some empty_text else none ])
    by_char true d rest h = tt
    by_char false d (some t) h = omega (arith, h)
    by_char false true none h = omega arith
    by_char false false none h = tt

non_empty-Shorter :
    (s : String) (o : Option String) → OnSome (Shorter s) o → OnSome (Shorter s) (non_empty o)
non_empty-Shorter s none h = tt
non_empty-Shorter s (some empty_text) h = tt
non_empty-Shorter s (some (c ▸ t)) h = h

pub call_argument-Shorter : (w s : String) → OnSome (Shorter s) (call_argument w s)
unfolding call_argument size
call_argument-Shorter w empty_text = tt
call_argument-Shorter w (c ▸ s) =
    by_test (not (w == "") && is_char b'(' c) (non_empty (before_last_paren s))
      (non_empty-Shorter s (before_last_paren s) (before_last_paren-Shorter s))
  where
    by_test :
        (b : Bool) (o : Option String)
        → OnSome (Shorter s) o
        → OnSome (Shorter (c ▸ s)) (if b then o else none)
    by_test true none h = tt
    by_test true (some t) h = omega (arith, h)
    by_test false o h = tt

abbrev pub BothWithin : ℕ → (String × String) → Type 0
BothWithin n p = (size p.0 < n) × (size p.1 < n)

-- Both parts of a split are shorter, where the separator is not empty.
split_once-BothWithin :
    (c : Char) (p s : String) (n : ℕ) → size s ≤ n → OnSome (BothWithin n) (split_once (c ▸ p) s)
unfolding size
split_once-BothWithin c p s n h = OnSome-of (BothWithin n) (split_once (c ▸ p) s) (λ (a, b) e.
    let whole = size-split_once (c ▸ p) s a b e in
    (omega (arith, whole, h), omega (arith, whole, h)))

-- A text that is not empty.
abbrev pub HasFirst : String → Type 0
HasFirst empty_text = ⊥
HasFirst (c ▸ s) = Unit

pub split_once-BothWithin_of :
    (p s : String) (n : ℕ) → HasFirst p → size s ≤ n → OnSome (BothWithin n) (split_once p s)
split_once-BothWithin_of empty_text s n a h = elim a [ ]
split_once-BothWithin_of (c ▸ p) s n a h = split_once-BothWithin c p s n h
