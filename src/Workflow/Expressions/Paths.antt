-- ===== src/Workflow/Expressions/Paths.antt =====
-- `_resolve_dot_path` and `_build_namespace` of workflows/expressions.py.
use alharistech_platform.Base.{
  all_chars, ℕ, zero, suc, String, Bool, not, ◌&&◌, ◌||◌, none, some, List, [], ◌∷◌, leb, ◌==◌,
  string_eq, if◌then◌else◌,
}
use alharistech_platform.Base.Split.{split_once, split_all, ends_in, all_but_last}
use alharistech_platform.Value.{
  ℤ, Value, null, str, list, dict, Items, nil, cons, Fields, end, field, find, get_or, or_else,
}
use alharistech_platform.Exception.{unmodelled, Result, ok, err, ◌>>=◌}
use alharistech_platform.Workflow.State.Document.{step_values}
use alharistech_platform.Workflow.Model.{StepContext}
use alharistech_platform.Workflow.Inputs.{signed}

-- `\w`, of ASCII characters
unfoldable pub is_word : ℕ → Bool
is_word c =
    leb b'a' c && leb c b'z'
    || leb b'A' c && leb c b'Z'
    || leb b'0' c && leb c b'9'
    || leb b'_' c && leb c b'_'

is_digit : ℕ → Bool
is_digit c = leb b'0' c && leb c b'9'

-- `[\w-]`
unfoldable pub is_key_char : ℕ → Bool
unfolding is_word
is_key_char c = is_word c || leb b'-' c && leb c b'-'

-- A part of a path: a key, or a key with an index.
pub data Part : Type 0 where
  key_only : String → Part
  indexed : String → ℕ → Part

-- The digits before a final "]", which a newline may follow.
digits_before : String → String
unfolding ends_in all_but_last
digits_before s = if ends_in b'\n' s then all_but_last (all_but_last s) else all_but_last s

closed_by : String → Bool
unfolding ends_in all_but_last
closed_by s = if ends_in b'\n' s then ends_in b']' (all_but_last s) else ends_in b']' s

abbrev index_part : String → String → String → Part
index_part part key digits = elim (signed digits) [
  | some (ℤ.pos n) ↦ indexed key n
  | _ ↦ key_only part
]

-- `^([\w-]+)\[(\d+)\]$`, on a part whose first "[" parts it in two
unfoldable pub part_of_split : String → String → String → Part
unfolding closed_by digits_before is_key_char is_digit signed
part_of_split part key rest =
    let digits = digits_before rest in
    if not (key == "")
      && all_chars is_key_char key
      && closed_by rest
      && not (digits == "")
      && all_chars is_digit digits
    then index_part part key digits
    else key_only part

-- The letters and digits of other scripts, which `\w` and `\d` match too, are not modelled.
unfoldable pub part_of : String → Result Part
unfolding split_once part_of_split
part_of part = elim (split_once "[" part) [
  | none ↦ ok (key_only part)
  | some (key, rest) ↦
      if all_chars (λ c. leb c 127) part then ok (part_of_split part key rest) else err unmodelled
]

-- `xs[n]`, and `None` past the end
unfoldable pub item_at : Items → ℕ → Value
item_at nil n = null
item_at (cons x xs) zero = x
item_at (cons x xs) (suc n) = item_at xs n

abbrev pub index_into : Value → ℕ → Value
unfolding item_at
index_into (list xs) n = item_at xs n
index_into _ n = null

abbrev pub value_at : Value → String → Value
value_at (dict fs) key = get_or fs key null
value_at _ key = null

unfoldable pub step_into : Value → Part → Value
unfolding find item_at
step_into v (key_only key) = value_at v key
step_into v (indexed key n) = index_into (value_at v key) n

-- A value of `None` ends the walk, as every later part would.
unfoldable pub walk : List String → Value → Result Value
unfolding part_of step_into
walk [] current = ok current
walk (part ∷ parts) null = ok null
walk (part ∷ parts) current = part_of part >>= λ p. walk parts (step_into current p)

-- `_resolve_dot_path`
unfoldable pub resolve_dot_path : Value → String → Result Value
unfolding walk split_all
resolve_dot_path obj path = walk (split_all b'.' path) obj

-- `_build_namespace`
unfoldable pub build_namespace : StepContext → Fields
unfolding step_values
build_namespace ctx = field "inputs" (dict ctx.inputs) (
    field "steps" (dict (step_values ctx.steps)) (
      field "item" ctx.item (
        field "fan_in" (or_else ctx.fan_in (dict end))
          (field "context" (dict (field "run_id" (str ctx.run_id) end)) end))))
