-- ===== src/Bundle/Component.antt =====
-- `ComponentRef` of bundler/models/manifest.py, and how its parts are read from a document. The texts
-- of errors are abbreviated. `str` of a list or a dict is not modelled.
use Prim.Native.Char.{code}
use Prim.Native.String.{[] as empty_text, ◌∷◌ as ◌▸◌}
use alharistech_platform.Base.{
  String, Bool, false, ◌&&◌, ◌||◌, Option, none, some, List, [], ◌∷◌, leb, string_eq, if◌then◌else◌,
}
use alharistech_platform.Base.Blank.{strip}
use alharistech_platform.Value.{ℤ, Value, null, int, str, Fields, truthy, find, get_or, to_text}
use alharistech_platform.Workflow.Inputs.{signed}
use alharistech_platform.Exception.{unmodelled, bundler_error, Result, ok, err, ◌>>=◌}

abbrev pub component_kinds : List String
component_kinds = "extensions" ∷ "presets" ∷ "steps" ∷ "workflows" ∷ []

pub record ComponentRef : Type 0 where
  pub kind : String
  pub id : String
  pub version : Option String
  pub source : Option String
  pub priority : Option ℤ
  pub strategy : Option String

-- `str(v)`
abbrev pub text_of : Value → Result String
text_of v = elim (to_text v) [ none ↦ err unmodelled | some s ↦ ok s ]

-- `str(d.get(k, "")).strip()`
unfoldable pub stripped : Fields → String → Result String
unfolding find to_text strip
stripped d k = text_of (get_or d k (str "")) >>= λ s. ok (strip s)

-- `str(d[k]) if d.get(k) else None`
unfoldable pub optional_text : Fields → String → Result (Option String)
unfolding find to_text
optional_text d k =
    let v = get_or d k null in if truthy v then (text_of v >>= λ s. ok (some s)) else ok none

-- Digits of other scripts and `_` between digits are not modelled.
beyond : String → Bool
beyond empty_text = false
beyond (c ▸ s) = leb 128 (code c) || (leb b'_' (code c) && leb (code c) b'_') || beyond s

abbrev priority_error : {A : Type 0} → Result A
priority_error = err (bundler_error "priority must be an integer")

-- `int(text)`
unfoldable pub int_of_text : String → Result (Option ℤ)
unfolding signed strip beyond
int_of_text s = elim (signed (strip s)) [
  | some z ↦ ok (some z)
  | none ↦ if beyond s then err unmodelled else priority_error
]

-- `_parse_priority`
unfoldable pub parse_priority : Value → Result (Option ℤ)
unfolding int_of_text
parse_priority null = ok none
parse_priority (int n) = ok (some n)
parse_priority (str s) = int_of_text s
parse_priority _ = priority_error
