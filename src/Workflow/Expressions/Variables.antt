-- ===== src/Workflow/Expressions/Variables.antt =====
-- Templates that name an input, or an output of a step.
use Prim.Native.Char.{code}
use Prim.Native.String.{[] as empty_text, ◌∷◌ as ◌▸◌}
use alharistech_platform.Base.{
  All, all_chars, all_chars-append, append_assoc, ⧺-is_append, String, ◌⧺◌, ◌<>◌, true, false,
  Option, none, some, List, [], ◌∷◌, ◌==◌, string_eq, ◌≡◌, refl, sym, ap, ◌∙◌, arith, Bool-cases,
  inl, inr,
}
use alharistech_platform.Base.Dict.{Dict, get}
use alharistech_platform.Base.Blank.{strip, is_space}
use alharistech_platform.Base.Blank.Plain.{
  and_left, and_right, no_space, strip-plain, strip-padded, strip-ends,
}
use alharistech_platform.Base.Split.{after_prefix, size}
use alharistech_platform.Base.Split.Absent.{absent_char}
use alharistech_platform.Value.{Value, null, str, dict, end, find, get_or}
use alharistech_platform.Workflow.Model.{StepData, StepContext}
use alharistech_platform.Workflow.Engine.{output_of}
use alharistech_platform.Workflow.Expressions.Filters.{follow}
use alharistech_platform.Workflow.State.Document.{step_value, step_values}
use alharistech_platform.Workflow.Expressions.Paths.{is_key_char, build_namespace, value_at}
use alharistech_platform.Workflow.Expressions.Simple.{
  Eval, ◌⟫◌, give, literal, evaluate_stripped, evaluate_simple, evaluate_simple_expression,
  is_quoted,
}
use alharistech_platform.Workflow.Expressions.Template.{
  evaluate_expression, evaluate_text, full_match, before_close, one_line, has_newline, substitute,
}
use alharistech_platform.Workflow.Expressions.Reference.{
  is_path_char, path_char-no_space, all_chars-map, key_char-path_char, dotted,
  evaluate_stripped-path, literal-inputs, literal-steps, resolve_dot_path-follow,
}

before_close-append : (s : String) → before_close (s ⧺ "}}") ≡ some s
unfolding before_close after_prefix
before_close-append empty_text = refl
before_close-append (c ▸ s) = rw (before_close-append s) refl

has_newline-path : (s : String) → all_chars is_path_char s ≡ true → has_newline (s ⧺ " ") ≡ false
unfolding is_path_char
has_newline-path empty_text h = refl
has_newline-path (c ▸ s) h =
    rw (absent_char is_path_char b'\n' c refl (and_left (is_path_char (code c)) _ h))
      (has_newline-path s (and_right (is_path_char (code c)) _ h))

-- A path between braces.
abbrev pub in_braces : String → String
in_braces e = "{{ " ⧺ e ⧺ " }}"

full_match-in_braces :
    (e : String)
    → all_chars is_path_char e ≡ true
    → full_match (strip (in_braces e)) ≡ some (" " ⧺ e ⧺ " ")
unfolding full_match after_prefix is_space
full_match-in_braces e h =
    let inner : String = " " ⧺ e ⧺ " " in
    let ends : e ⧺ " }}" ≡ (e ⧺ " }") ⧺ "}" = sym (append_assoc e " }" "}") in
    let close : e ⧺ " }}" ≡ (e ⧺ " ") ⧺ "}}" = sym (append_assoc e " " "}}") in
    ap full_match (
      ap (λ t. strip ("{{ " ⧺ t)) ends
      ∙ strip-ends "{" "}" ("{ " ⧺ e ⧺ " }") refl refl
      ∙ ap (λ t. "{{ " ⧺ t) (sym ends ∙ close))
    ∙ ap one_line (before_close-append inner)
    ∙ rw (has_newline-path e h) refl

some_eq : (s t : String) → some s ≡ some t → s ≡ t
some_eq s t h = ground (arith, h)

module _ (parse_json : String → Option Value) (ctx : StepContext) (e : String)
    (path : all_chars is_path_char e ≡ true) where
  plain : all_chars no_space e ≡ true
  plain = all_chars-map is_path_char no_space e path_char-no_space path

  abbrev namespace : Value
  namespace = dict (build_namespace ctx)

  abbrev deeper : String → Eval Value
  deeper = evaluate_simple parse_json namespace (size e)

  simple-path :
      is_quoted e ≡ false
      → after_prefix "not " e ≡ none
      → evaluate_simple_expression parse_json namespace e ≡ literal parse_json namespace deeper e
  unfolding evaluate_simple_expression evaluate_simple
  simple-path h k =
      ap (evaluate_stripped parse_json namespace deeper) (strip-plain e plain)
      ∙ evaluate_stripped-path parse_json namespace deeper e path h k

  -- Braces around a path: its value, with the type that it has.
  in_braces-path :
      is_quoted e ≡ false
      → after_prefix "not " e ≡ none
      → evaluate_expression parse_json (str (in_braces e)) ctx
        ≡ literal parse_json namespace deeper e
  unfolding evaluate_expression evaluate_text is_space
  in_braces-path h k =
      by_match (full_match (strip (in_braces e))) (full_match-in_braces e path)
      ∙ ap (evaluate_simple_expression parse_json namespace)
          (strip-padded " " " " e refl refl plain)
      ∙ simple-path h k
    where
      by_match :
          (o : Option String)
          → o ≡ some (" " ⧺ e ⧺ " ")
          → elim o as (λ o. Eval Value) [
            | some inner ↦ evaluate_simple_expression parse_json namespace (strip inner)
            | none ↦
                substitute (evaluate_simple_expression parse_json namespace) 0 (in_braces e) ⟫ λ s.
                give (str s)
          ]
            ≡ evaluate_simple_expression parse_json namespace (strip (" " ⧺ e ⧺ " "))
      by_match none h = ground (arith, h)
      by_match (some inner) h =
          ap (λ t. evaluate_simple_expression parse_json namespace (strip t)) (some_eq inner _ h)

-- Keys of letters, digits, "_" and "-".
abbrev pub AreKeys : List String → Type 0
AreKeys keys = All (λ k. all_chars is_key_char k ≡ true) keys

dotted-path :
    (key : String) (keys : List String)
    → AreKeys (key ∷ keys)
    → all_chars is_path_char (dotted key keys) ≡ true
unfolding is_path_char
dotted-path key [] (h, k) = all_chars-map is_key_char is_path_char key key_char-path_char h
dotted-path key (j ∷ keys) (h, k) =
    all_chars-append is_path_char key ("." ⧺ dotted j keys)
    ∙ rw (all_chars-map is_key_char is_path_char key key_char-path_char h, dotted-path j keys k)
        refl

module _ (parse_json : String → Option Value) (ctx : StepContext) (key : String)
    (keys : List String) (plain_keys : AreKeys (key ∷ keys)) where
  abbrev names : Value
  names = dict (build_namespace ctx)

  in_braces-inputs :
      evaluate_expression parse_json (str (in_braces (dotted "inputs" (key ∷ keys)))) ctx
      ≡ give (follow ("inputs" ∷ key ∷ keys) names)
  unfolding is_key_char is_quoted after_prefix
  in_braces-inputs =
      in_braces-path parse_json ctx (dotted "inputs" (key ∷ keys))
        (dotted-path "inputs" (key ∷ keys) (refl, plain_keys)) refl refl
      ∙ literal-inputs parse_json _ _ (dotted key keys)
      ∙ ap some (resolve_dot_path-follow names "inputs" (key ∷ keys) (refl, plain_keys))

  in_braces-steps :
      evaluate_expression parse_json (str (in_braces (dotted "steps" (key ∷ keys)))) ctx
      ≡ give (follow ("steps" ∷ key ∷ keys) names)
  unfolding is_key_char is_quoted after_prefix
  in_braces-steps =
      in_braces-path parse_json ctx (dotted "steps" (key ∷ keys))
        (dotted-path "steps" (key ∷ keys) (refl, plain_keys)) refl refl
      ∙ literal-steps parse_json _ _ (dotted key keys)
      ∙ ap some (resolve_dot_path-follow names "steps" (key ∷ keys) (refl, plain_keys))

joined : (s : String) {t u : String} → t ≡ u → s <> t ≡ s ⧺ u
joined s {t} {u} e = ap (λ v. s <> v) e ∙ sym (⧺-is_append s u)

-- The template `{{ inputs.<name> }}`, for a name of letters, digits, "_" and "-", has the value of the
-- input, of whatever type, and `None` where there is no such input.
pub evaluate_expression-input :
    (parse_json : String → Option Value) (ctx : StepContext) (name : String)
    → all_chars is_key_char name ≡ true
    → evaluate_expression parse_json (str ("{{ inputs." <> name <> " }}")) ctx
      ≡ give (get_or ctx.inputs name null)
unfolding follow build_namespace find string_eq
evaluate_expression-input parse_json ctx name h =
    ap (λ t. evaluate_expression parse_json (str t) ctx)
      (joined "{{ inputs." (sym (⧺-is_append name " }}")))
    ∙ in_braces-inputs parse_json ctx name [] (h, tt)

find-step_values :
    (steps : Dict String StepData) (id : String)
    → get_or (step_values steps) id null
      ≡ elim (get steps id) as (λ o. Value) [ none ↦ null | some d ↦ step_value d ]
unfolding step_values find get
find-step_values [] id = refl
find-step_values ((j, d) ∷ steps) id = elim (Bool-cases (id == j)) [
  | inl e ↦ rw e refl
  | inr e ↦ rw e (find-step_values steps id)
]

output_key :
    (ctx : StepContext) (id key : String)
    → follow (id ∷ "output" ∷ key ∷ []) (dict (step_values ctx.steps))
      ≡ value_at (output_of ctx id) key
unfolding follow output_of step_value find string_eq
output_key ctx id key =
    ap (follow ("output" ∷ key ∷ [])) (find-step_values ctx.steps id) ∙ by_step (get ctx.steps id)
  where
    by_step :
        (o : Option StepData)
        → follow
            ("output" ∷ key ∷ [])
            (elim o as (λ o. Value) [ none ↦ null | some d ↦ step_value d ])
          ≡ value_at (elim o as (λ o. Value) [ none ↦ dict end | some d ↦ dict d.output ]) key
    by_step none = refl
    by_step (some d) = refl

-- The template `{{ steps.<id>.output.<key> }}`, for an id and a key of letters, digits, "_" and "-", has
-- the value of that key in the output that the engine keeps of the step, of whatever type, and `None`
-- where the step has not run or its output has no such key.
pub evaluate_expression-output :
    (parse_json : String → Option Value) (ctx : StepContext) (id key : String)
    → all_chars is_key_char id ≡ true
    → all_chars is_key_char key ≡ true
    → evaluate_expression parse_json (str ("{{ steps." <> id <> ".output." <> key <> " }}")) ctx
      ≡ give (value_at (output_of ctx id) key)
unfolding follow build_namespace find string_eq is_key_char
evaluate_expression-output parse_json ctx id key h k =
    ap (λ t. evaluate_expression parse_json (str t) ctx)
      (joined "{{ steps." (joined id (joined ".output." (sym (⧺-is_append key " }}"))))
        ∙ ap (λ t. "{{ steps." ⧺ t) (sym (append_assoc id (".output." ⧺ key) " }}")))
    ∙ in_braces-steps parse_json ctx id ("output" ∷ key ∷ []) (h, (refl, (k, tt)))
    ∙ ap give (output_key ctx id key)
