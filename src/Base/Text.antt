-- ===== src/Base/Text.antt =====
-- Python's `str` of a whole number, and tests of every character of a text.
use Prim.Native.Nat.{ℕ, zero, suc, ◌/◌, ◌%◌}
use Prim.Native.Char.{code}
use Prim.Native.String.{String, ◌++◌, [] as empty_text, ◌∷◌ as ◌▸◌}
use mathlib.Core.Bool.{Bool, true, ◌&&◌}
use native.Mathlib.Omega.{arith}
use mathlib.Core.Path.{◌≡◌, refl, sym, ap, ◌∙◌}
use text.Mathlib.TextLemmas.{nil-append, cons-append}
use alharistech_platform.Base.Equality.{ltb, if◌then◌else◌}

digit : ℕ → String
digit zero = "0"
digit (suc zero) = "1"
digit (suc (suc zero)) = "2"
digit (suc (suc (suc zero))) = "3"
digit (suc (suc (suc (suc zero)))) = "4"
digit (suc (suc (suc (suc (suc zero))))) = "5"
digit (suc (suc (suc (suc (suc (suc zero)))))) = "6"
digit (suc (suc (suc (suc (suc (suc (suc zero))))))) = "7"
digit (suc (suc (suc (suc (suc (suc (suc (suc zero)))))))) = "8"
digit _ = "9"

-- The fuel `n` is more than the number of tenths taken.
decimal_within : ℕ → ℕ → String
decimal_within zero n = digit n
decimal_within (suc f) n =
    let front = decimal_within f (n / 10) in if ltb n 10 then digit n else front ++ digit (n % 10)

unfoldable pub decimal : ℕ → String
unfolding decimal_within digit
decimal n = decimal_within n n

decimal_runs : decimal 120 ≡ "120"
unfolding decimal
decimal_runs = refl

-- Every character of a text is one of those.
abbrev pub all_chars : (ℕ → Bool) → String → Bool
all_chars p empty_text = true
all_chars p (c ▸ s) = p (code c) && all_chars p s

-- One text after another, by characters: the library's `++`.
infixr 65 ◌⧺◌
abbrev pub ◌⧺◌ : String → String → String
empty_text ⧺ t = t
(c ▸ s) ⧺ t = c ▸ (s ⧺ t)

pub ⧺-is_append : (s t : String) → s ⧺ t ≡ s ++ t
⧺-is_append empty_text t = sym (nil-append t)
⧺-is_append (c ▸ s) t = ap (λ u. c ▸ u) (⧺-is_append s t) ∙ sym (cons-append c s t)

pub all_chars-append :
    (p : ℕ → Bool) (s t : String) → all_chars p (s ⧺ t) ≡ (all_chars p s && all_chars p t)
all_chars-append p empty_text t = refl
all_chars-append p (c ▸ s) t = ground (arith, all_chars-append p s t)

pub append_assoc : (s t u : String) → (s ⧺ t) ⧺ u ≡ s ⧺ t ⧺ u
append_assoc empty_text t u = refl
append_assoc (c ▸ s) t u = ap (λ v. c ▸ v) (append_assoc s t u)
