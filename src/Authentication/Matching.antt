-- ===== src/Authentication/Matching.antt =====
-- Which hosts a pattern that validation accepts matches, on `fnmatch`.
use Prim.Native.Char.{Char, code}
use Prim.Native.String.{[] as empty_text, ◌∷◌ as ◌▸◌}
use text.Mathlib.TextEquality.{Char-path}
use alharistech_platform.Base.{
  All, all_chars, ℕ, String, ◌⧺◌, Bool, true, false, not, ◌&&◌, ◌||◌, ◌⊎◌, inl, inr, List, [], ◌∷◌,
  leb, ◌==◌, eq_of_==, string_eq, ◌≡◌, refl, sym, ap, ◌∙◌, subst, arith, Bool-cases,
}
use alharistech_platform.Base.Blank.Plain.{and_left, and_right}
use alharistech_platform.Base.Split.{is_char, same_char}
use alharistech_platform.Authentication.Hosts.{
  is_not, is_valid_host_pattern, some_end, one_char, glob_after, glob, hostname_in_hosts,
}

-- The host is the pattern, or the pattern is "*." and a suffix and the host is the suffix after a dot and
-- what comes before it.
abbrev pub Names : String → String → Type 0
Names p host =
    (p ≡ host)
    ⊎ ((suffix : String) × (front : String) × (p ≡ "*." ⧺ suffix) × (host ≡ front ⧺ "." ⧺ suffix))

abbrev pub NamedBy : String → List String → Type 0
NamedBy host [] = ⊥
NamedBy host (p ∷ ps) = Names p host ⊎ NamedBy host ps

abbrev NoStar : String → Type 0
NoStar s = all_chars (is_not b'*') s ≡ true

-- "?" and "[", which validation lets through, do not stand in the text.
abbrev is_plain : ℕ → Bool
is_plain c = is_not b'?' c && is_not b'[' c

abbrev IsPlain : String → Type 0
IsPlain s = all_chars is_plain s ≡ true

same_number : (a b : ℕ) → (leb a b && leb b a) ≡ true → a ≡ b
same_number a b h = ground (arith, h)

char_eq : (a c : Char) → is_char (code a) c ≡ true → a ≡ c
char_eq a c h = Char-path a c (same_number (code a) (code c) h)

not-false : (b : Bool) → not b ≡ true → b ≡ false
not-false true h = ground (arith, h)
not-false false h = refl

glob_after-plain : (p t : String) → NoStar p → IsPlain p → glob_after 0 p t ≡ true → p ≡ t
unfolding glob_after
glob_after-plain empty_text t h k e = sym (eq_of_== t "" e)
glob_after-plain (c ▸ p) t h k e =
    let plain = and_left (is_plain (code c)) (all_chars is_plain p) k in
    let star = not-false (is_char b'*' c) (and_left (not (is_char b'*' c)) _ h) in
    let question = not-false (is_char b'?' c) (and_left (not (is_char b'?' c)) _ plain) in
    let opens = not-false (is_char b'[' c) (and_right (not (is_char b'?' c)) _ plain) in
    one t question (rw (star, opens) at e) (λ u.
      glob_after-plain p u (and_right (not (is_char b'*' c)) _ h)
        (and_right (is_plain (code c)) (all_chars is_plain p) k))
  where
    one :
        (t : String)
        → is_char b'?' c ≡ false
        → one_char c (glob_after 0 p) t ≡ true
        → ((u : String) → glob_after 0 p u ≡ true → p ≡ u)
        → c ▸ p ≡ t
    one empty_text q e rest = ground (arith, e)
    one (d ▸ t) q e rest =
        let same : same_char c d ≡ true =
          ground (arith, and_left (is_char b'?' c || same_char c d) _ e, q) in
        subst (λ x. c ▸ p ≡ x ▸ t) (char_eq c d same)
          (ap (λ u. c ▸ u) (rest t (and_right (is_char b'?' c || same_char c d) _ e)))

glob-plain : (p t : String) → NoStar p → IsPlain p → glob p t ≡ true → p ≡ t
unfolding glob
glob-plain p t h k e = glob_after-plain p t h k e

some_end-found :
    (test : String → Bool) (t : String)
    → some_end test t ≡ true
    → (front : String) × (rest : String) × (t ≡ front ⧺ rest) × (test rest ≡ true)
some_end-found test empty_text e = ("", "", refl, e)
some_end-found test (c ▸ t) e = elim (Bool-cases (test (c ▸ t))) [
  | inl here ↦ ("", c ▸ t, refl, here)
  | inr later ↦
      let found = some_end-found test t (rw later at e) in
      (c ▸ found.0, found.1, ap (λ u. c ▸ u) found.2, found.3)
]

glob-suffix :
    (suffix t : String)
    → NoStar suffix
    → IsPlain suffix
    → glob ("*." ⧺ suffix) t ≡ true
    → Names ("*." ⧺ suffix) t
unfolding glob glob_after
glob-suffix suffix t h k e =
    let found = some_end-found (glob ("." ⧺ suffix)) t e in
    let same : "." ⧺ suffix ≡ found.1 = glob-plain ("." ⧺ suffix) found.1 h k found.3 in
    inr (suffix, found.0, refl, found.2 ∙ ap (λ u. found.0 ⧺ u) (sym same))

or_right : (a b : Bool) → a ≡ false → (a || b) ≡ true → b ≡ true
or_right a b h e = ground (arith, h, e)

-- What `_is_valid_host_pattern` accepts.
abbrev IsPattern : String → Type 0
IsPattern p = NoStar p ⊎ ((suffix : String) × (p ≡ "*." ⧺ suffix) × NoStar suffix)

pub valid-IsPattern : (p : String) → is_valid_host_pattern p ≡ true → IsPattern p
unfolding is_valid_host_pattern
valid-IsPattern empty_text e = inl e
valid-IsPattern (c ▸ empty_text) e = inl e
valid-IsPattern (c ▸ d ▸ s) e = elim (Bool-cases (all_chars (is_not b'*') (c ▸ d ▸ s))) [
  | inl plain ↦ inl plain
  | inr other ↦
      let starred : (is_char b'*' c && is_char b'.' d && all_chars (is_not b'*') s) ≡ true =
        or_right _ _ other e in
      let heads = and_left (is_char b'*' c && is_char b'.' d) _ starred in
      inr (
        s,
        sym (ap (λ x. x ▸ d ▸ s) (char_eq "*" c (and_left (is_char b'*' c) _ heads)))
            ∙ sym (ap (λ x. "*" ⧺ x ▸ s) (char_eq "." d (and_right (is_char b'*' c) _ heads))),
        and_right (is_char b'*' c && is_char b'.' d) _ starred,
      )
]

Names-of_glob : (p t : String) → IsPattern p → IsPlain p → glob p t ≡ true → Names p t
Names-of_glob p t (inl plain) k e = inl (glob-plain p t plain k e)
Names-of_glob p t (inr (suffix, same, plain)) k e =
    subst (λ q. Names q t) (sym same)
      (glob-suffix suffix t plain (subst IsPlain same k) (subst (λ q. glob q t ≡ true) same e))

-- The patterns of the hosts of an entry.
abbrev pub ArePatterns : List String → Type 0
ArePatterns hosts = All IsPattern hosts

-- None of the hosts has a "?" or a "[" in it.
abbrev pub ArePlain : List String → Type 0
ArePlain hosts = All (λ p. all_chars is_plain p ≡ true) hosts

pub hostname_in_hosts-NamedBy :
    (host : String) (hosts : List String)
    → ArePatterns hosts
    → ArePlain hosts
    → hostname_in_hosts host hosts ≡ true
    → NamedBy host hosts
unfolding hostname_in_hosts
hostname_in_hosts-NamedBy host [] v k e = ground (arith, e)
hostname_in_hosts-NamedBy host (p ∷ ps) (v, w) (k, l) e =
    by_test (p == host) refl (glob p host) refl e (λ f. hostname_in_hosts-NamedBy host ps w l f)
  where
    by_test :
        (a : Bool)
        → (p == host) ≡ a
        → (b : Bool) → glob p host ≡ b
        → (a || b || hostname_in_hosts host ps) ≡ true
        → (hostname_in_hosts host ps ≡ true → NamedBy host ps)
        → NamedBy host (p ∷ ps)
    by_test true e b f h rest = inl (inl (eq_of_== p host e))
    by_test false e true f h rest = inl (Names-of_glob p host v k f)
    by_test false e false f h rest = inr (rest h)
