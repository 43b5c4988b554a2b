-- ===== src/Authentication/Hosts.antt =====
-- The matching of hosts in authentication/config.py and authentication/http.py, on `fnmatch`.
use Prim.Native.Char.{Char, code}
use Prim.Native.String.{[] as empty_text, ◌∷◌ as ◌▸◌}
use alharistech_platform.Base.{
  all_chars, ℕ, zero, suc, ◌-◌, String, Bool, true, false, not, ◌&&◌, ◌||◌, Option, none, some,
  List, [], ◌∷◌, ltb, leb, ◌==◌, string_eq, if◌then◌else◌,
}
use alharistech_platform.Base.Split.{is_char, same_char}
use alharistech_platform.Exception.{unmodelled, Result, ok, err, ◌>>=◌}

abbrev pub is_not : ℕ → ℕ → Bool
is_not a c = not (leb a c && leb c a)

-- `_is_valid_host_pattern`
unfoldable pub is_valid_host_pattern : String → Bool
is_valid_host_pattern (c ▸ d ▸ s) =
    all_chars (is_not b'*') (c ▸ d ▸ s)
    || is_char b'*' c && is_char b'.' d && all_chars (is_not b'*') s
is_valid_host_pattern s = all_chars (is_not b'*') s

-- Some end of the text passes the test.
abbrev pub some_end : (String → Bool) → String → Bool
some_end test empty_text = test empty_text
some_end test (c ▸ s) = test (c ▸ s) || some_end test s

-- One character, which "?" matches whatever it is, and then a text that passes the test.
abbrev pub one_char : Char → (String → Bool) → String → Bool
one_char c test empty_text = false
one_char c test (d ▸ t) = (is_char b'?' c || same_char c d) && test t

-- The characters before the next "]", and how many characters they are with it.
up_to_close : String → Option (String × ℕ)
up_to_close empty_text = none
up_to_close (c ▸ s) =
    let rest = up_to_close s in
    if is_char b']' c
    then some ("", 1)
    else elim rest [ none ↦ none | some (content, n) ↦ some (c ▸ content, suc n) ]

-- The same, where the first character belongs to the content even if it is "]".
content_of : String → Option (String × ℕ)
unfolding up_to_close
content_of empty_text = none
content_of (c ▸ s) = elim (up_to_close s) [
  | none ↦ none
  | some (content, n) ↦ some (c ▸ content, suc n)
]

-- What stands after a "[": whether a "!" comes first, the content, and the number of characters up to
-- and with the "]"; `none` where there is no "]".
unfoldable pub bracket : String → Option (Bool × String × ℕ)
unfolding content_of
bracket empty_text = none
bracket (c ▸ s) =
    if is_char b'!' c
    then elim (content_of s) [ none ↦ none | some (content, n) ↦ some (true, content, suc n) ]
    else elim (content_of (c ▸ s)) [ none ↦ none | some (content, n) ↦ some (false, content, n) ]

-- The content after the ranges at its start that are empty, which `fnmatch.translate` takes out.
past_empty : String → String
past_empty (a ▸ b ▸ e ▸ s) =
    let rest = past_empty s in
    if is_char b'-' b && ltb (code e) (code a) then rest else a ▸ b ▸ e ▸ s
past_empty s = s

-- The character is one of the content's, or in one of its ranges.
in_content : String → Char → Bool
in_content empty_text d = false
in_content (a ▸ empty_text) d = same_char a d
in_content (a ▸ b ▸ empty_text) d = same_char a d || same_char b d
in_content (a ▸ b ▸ e ▸ s) d =
    let later = in_content (b ▸ e ▸ s) d in
    let after_range = in_content s d in
    if is_char b'-' b
    then leb (code a) (code d) && leb (code d) (code e) || after_range
    else same_char a d || later

-- A "!" that has come to the front only because empty ranges were taken out inverts the content too.
abbrev in_rest : String → Char → Bool
unfolding in_content
in_rest (c ▸ s) d = if is_char b'!' c then not (in_content s d) else in_content (c ▸ s) d
in_rest empty_text d = false

unfoldable pub in_bracket : Bool → String → Char → Bool
unfolding in_rest in_content past_empty
in_bracket inverted content d =
    if inverted then not (in_content content d) else in_rest (past_empty content) d

-- One character that is in the brackets, and then a text that passes the test.
abbrev pub one_of : Bool → String → (String → Bool) → String → Bool
unfolding in_bracket
one_of inverted content test empty_text = false
one_of inverted content test (d ▸ t) = in_bracket inverted content d && test t

-- What the pattern matches after its first characters, as many as the number says.
unfoldable pub glob_after : ℕ → String → String → Bool
unfolding bracket one_of
glob_after n empty_text t = t == ""
glob_after (suc n) (c ▸ p) t = glob_after n p t
glob_after zero (c ▸ p) t =
    if is_char b'*' c
    then some_end (glob_after 0 p) t
    else if is_char b'[' c
    then elim (bracket p) [
      | none ↦ one_char c (glob_after 0 p) t
      | some (inverted, content, n) ↦ one_of inverted content (glob_after n p) t
    ]
    else one_char c (glob_after 0 p) t

-- `fnmatch(text, pattern)`, where `os.path.normcase` changes nothing, as on POSIX
unfoldable pub glob : String → String → Bool
unfolding glob_after
glob p t = glob_after 0 p t

-- `any(p == hostname or fnmatch(hostname, p) for p in hosts)`
unfoldable pub hostname_in_hosts : String → List String → Bool
unfolding glob
hostname_in_hosts hostname [] = false
hostname_in_hosts hostname (p ∷ ps) =
    p == hostname || glob p hostname || hostname_in_hosts hostname ps

-- The character at a place of a text, and another past its end.
char_at : String → ℕ → Char → Char
char_at empty_text n other = other
char_at (c ▸ s) zero other = c
char_at (c ▸ s) (suc n) other = char_at s n other

lower_char : Char → Char
unfolding char_at
lower_char c =
    if leb b'A' (code c) then char_at "abcdefghijklmnopqrstuvwxyz" (code c - b'A') c else c

lower_all : String → String
unfolding lower_char
lower_all empty_text = empty_text
lower_all (c ▸ s) = lower_char c ▸ lower_all s

-- `s.lower()`, of a text of ASCII characters
unfoldable pub lower : String → Result String
unfolding lower_all
lower s = if all_chars (λ c. leb c 127) s then ok (lower_all s) else err unmodelled

-- Whether a redirect to a host keeps the `Authorization` header of a request that has one.
unfoldable pub keeps_authorization : String → String → String → List String → Result Bool
unfolding hostname_in_hosts lower
keeps_authorization old_scheme new_scheme new_host hosts = lower new_host >>= λ hostname.
    ok (
      hostname_in_hosts hostname hosts
      && not (old_scheme == "https" && not (new_scheme == "https")))
