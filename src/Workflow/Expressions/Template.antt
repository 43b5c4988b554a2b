-- ===== src/Workflow/Expressions/Template.antt =====
-- `evaluate_expression` of workflows/expressions.py: templates with `{{ ... }}` in them.
use Prim.Native.Char.{Char}
use Prim.Native.String.{[] as empty_text, ◌∷◌ as ◌▸◌}
use alharistech_platform.Base.{
  ℕ, zero, suc, ◌+◌, String, ◌<>◌, Bool, true, false, Option, none, some, if◌then◌else◌,
}
use alharistech_platform.Base.Blank.{strip}
use alharistech_platform.Base.Split.{size, after_prefix, is_char}
use alharistech_platform.Value.{Value, null, str, dict}
use alharistech_platform.Exception.{Result, ok}
use alharistech_platform.Workflow.Model.{StepContext}
use alharistech_platform.Workflow.Expressions.Filters.{text_of}
use alharistech_platform.Workflow.Expressions.Paths.{build_namespace}
use alharistech_platform.Workflow.Expressions.Simple.{Eval, ◌⟫◌, give, evaluate_simple_expression}

abbrev extend_match : Char → Option (String × String) → Option (String × String)
extend_match c none = none
extend_match c (some (inner, rest)) = some (c ▸ inner, rest)

-- What stands before the first "}}" of the first line, and what follows it.
unfoldable pub up_to_close : String → Option (String × String)
unfolding after_prefix
up_to_close empty_text = none
up_to_close (c ▸ s) =
    let rest = up_to_close s in
    if is_char b'\n' c then none else elim (after_prefix "}}" (c ▸ s)) [
      | some after ↦ some (empty_text, after)
      | none ↦ extend_match c rest
    ]

abbrev at_least_one : String → Option (String × String)
unfolding up_to_close
at_least_one empty_text = none
at_least_one (c ▸ s) = if is_char b'\n' c then none else extend_match c (up_to_close s)

-- `\{\{(.+?)\}\}` at the start of a text: what it encloses, and what follows.
unfoldable pub match_here : String → Option (String × String)
unfolding after_prefix at_least_one
match_here s = elim (after_prefix "{{" s) [ none ↦ none | some inside ↦ at_least_one inside ]

abbrev pub has_newline : String → Bool
has_newline empty_text = false
has_newline (c ▸ s) = if is_char b'\n' c then true else has_newline s

-- The text before a final "}}", if that is how it ends.
unfoldable pub before_close : String → Option String
before_close empty_text = none
before_close (c ▸ s) =
    let rest = before_close s in
    elim rest [
      | some t ↦ some (c ▸ t)
      | none ↦ elim (after_prefix "}}" (c ▸ s)) [ some empty_text ↦ some empty_text | _ ↦ none ]
    ]

abbrev pub one_line : Option String → Option String
one_line none = none
one_line (some empty_text) = none
one_line (some (c ▸ s)) = if has_newline (c ▸ s) then none else some (c ▸ s)

-- `_EXPR_PATTERN.fullmatch`: all that stands between the outermost braces.
unfoldable pub full_match : String → Option String
unfolding before_close after_prefix
full_match s = elim (after_prefix "{{" s) [
  | none ↦ none
  | some inside ↦ one_line (before_close inside)
]

-- `str(val) if val is not None else ""`
unfoldable pub replacement : Value → Result String
unfolding text_of
replacement null = ok ""
replacement v = text_of v

module _ (evaluate : String → Eval Value) where
  -- `_EXPR_PATTERN.sub(_replacer, template)`; the number counts the characters of a match that are
  -- still to be passed over.
  unfoldable pub substitute : ℕ → String → Eval String
  unfolding match_here replacement strip size
  substitute skip empty_text = give empty_text
  substitute (suc skip) (c ▸ s) = substitute skip s
  substitute zero (c ▸ s) =
      let on = substitute zero s in
      let past : ℕ → Eval String = λ skip. substitute skip s in
      elim (match_here (c ▸ s)) [
        | none ↦ on ⟫ λ t. give (c ▸ t)
        | some (inner, rest) ↦ evaluate (strip inner) ⟫ λ v.
            some (replacement v) ⟫ λ text. past (size inner + 3) ⟫ λ t. give (text <> t)
      ]

-- A text that is one expression gives its value; in any other the expressions are replaced.
unfoldable pub evaluate_text : (String → Eval Value) → String → Eval Value
unfolding full_match substitute strip
evaluate_text evaluate template = elim (full_match (strip template)) [
  | some inner ↦ evaluate (strip inner)
  | none ↦ substitute evaluate 0 template ⟫ λ s. give (str s)
]

-- `evaluate_expression`
unfoldable pub evaluate_expression : (String → Option Value) → Value → StepContext → Eval Value
unfolding evaluate_text evaluate_simple_expression build_namespace
evaluate_expression parse_json (str template) ctx =
    evaluate_text (evaluate_simple_expression parse_json (dict (build_namespace ctx))) template
evaluate_expression parse_json template ctx = give template
