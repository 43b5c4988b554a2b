-- ===== src/Workflow/Expressions/Filters.antt =====
-- The filters of workflows/expressions.py: `_filter_default`, `_filter_join`, `_filter_map`,
-- `_filter_contains` and `_filter_from_json`.
use text.Mathlib.Text.{find?}
use alharistech_platform.Base.{
  String, ◌<>◌, Bool, true, false, Option, none, some, List, [], ◌∷◌, ◌==◌, string_eq,
  if◌then◌else◌,
}
use alharistech_platform.Base.Split.{split_all}
use alharistech_platform.Value.{
  Value, null, bool, str, list, dict, Items, nil, cons, find, get_or, to_text,
}
use alharistech_platform.Value.Compare.{has_item}
use alharistech_platform.Exception.{
  attribute_error, type_error, unmodelled, value_error, Result, ok, err, ◌>>=◌,
}

-- `str(v)`; the texts of lists and dicts are not modelled.
unfoldable pub text_of : Value → Result String
unfolding to_text
text_of v = elim (to_text v) [ none ↦ err unmodelled | some s ↦ ok s ]

unfoldable pub filter_default : Value → Value → Value
filter_default null default_value = default_value
filter_default (str s) default_value = if s == "" then default_value else str s
filter_default v default_value = v

-- `separator.join(str(v) for v in value)`
unfoldable pub join_texts : String → Items → Result String
unfolding text_of
join_texts separator nil = ok ""
join_texts separator (cons v nil) = text_of v
join_texts separator (cons v vs) =
    text_of v >>= λ s. join_texts separator vs >>= λ rest. ok (s <> separator <> rest)

unfoldable pub filter_join : Value → Value → Result Value
unfolding join_texts text_of
filter_join (list xs) (str separator) = join_texts separator xs >>= λ s. ok (str s)
filter_join (list xs) _ = err attribute_error
filter_join v _ = text_of v >>= λ s. ok (str s)

-- The value at the end of a path of keys; `None` where a key is missing or the value is no dict.
unfoldable pub follow : List String → Value → Value
unfolding find
follow [] v = v
follow (part ∷ parts) (dict fs) = follow parts (get_or fs part null)
follow (part ∷ parts) v = null

map_item : Value → Value → Result Value
unfolding follow split_all
map_item (dict fs) (str attr) = ok (follow (split_all b'.' attr) (dict fs))
map_item (dict fs) attr = err attribute_error
map_item item attr = ok item

map_items : Items → Value → Result Items
unfolding map_item
map_items nil attr = ok nil
map_items (cons item items) attr =
    map_item item attr >>= λ v. map_items items attr >>= λ vs. ok (cons v vs)

unfoldable pub filter_map : Value → Value → Result Value
unfolding map_items
filter_map (list xs) attr = map_items xs attr >>= λ vs. ok (list vs)
filter_map v attr = ok (list nil)

-- `part in text`
abbrev pub has_text : String → String → Bool
has_text part text = elim (find? text part) [ none ↦ false | some _ ↦ true ]

unfoldable pub filter_contains : Value → Value → Result Value
unfolding has_item
filter_contains (str s) (str part) = ok (bool (has_text part s))
filter_contains (str s) _ = err type_error
filter_contains (list xs) v = ok (bool (has_item xs v))
filter_contains _ _ = ok (bool false)

-- `json.loads` is a parameter; `none` is a text that it refuses.
unfoldable pub filter_from_json : (String → Option Value) → Value → Result Value
filter_from_json parse_json (str s) = elim (parse_json s) [
  | some v ↦ ok v
  | none ↦ err (value_error "from_json: invalid JSON")
]
filter_from_json parse_json _ = err (value_error "from_json: expected a JSON string")
