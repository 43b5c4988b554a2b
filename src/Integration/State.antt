-- ===== src/Integration/State.antt =====
-- The documents of `.specify/integration.json` in integration_state.py: keys and settings are cleaned,
-- and a legacy document is brought into the present form.
pub mod Keys
pub mod Normal
use alharistech_platform.Base.{
  ℕ, String, Bool, true, false, not, ◌&&◌, ◌||◌, Option, none, some, List, [], ◌∷◌, ◌++◌, leb,
  contains, ◌==◌, string_eq, if◌then◌else◌,
}
use alharistech_platform.Base.Blank.{strip}
use alharistech_platform.Value.{
  ℤ, Value, null, bool, int, str, list, dict, Items, nil, cons, Fields, end, field, truthy, or_else,
  find, get_or, or_default, set,
}
use alharistech_platform.Workflow.Inputs.{without}

abbrev pub nonempty : String → Option String
nonempty s = if s == "" then none else some s

-- `clean_integration_key`
unfoldable pub clean_integration_key : Value → Option String
unfolding strip
clean_integration_key (str s) = nonempty (strip s)
clean_integration_key _ = none

-- `dedupe_integration_keys`, after the keys that are seen already
abbrev pub add_key : List String → Option String → List String
add_key seen none = seen
add_key seen (some k) = if contains seen k then seen else seen ++ (k ∷ [])

unfoldable pub dedupe_after : List String → Items → List String
unfolding clean_integration_key
dedupe_after seen nil = seen
dedupe_after seen (cons v vs) = dedupe_after (add_key seen (clean_integration_key v)) vs

unfoldable pub dedupe_integration_keys : Items → List String
unfolding dedupe_after
dedupe_integration_keys vs = dedupe_after [] vs

-- A text of a setting, cleaned or as it is, and a dict.
abbrev pub with_clean : String → Option Value → Fields → Fields
with_clean k (some (str s)) d = elim (nonempty (strip s)) [ none ↦ d | some t ↦ set d k (str t) ]
with_clean k _ d = d

abbrev pub with_raw : String → Option Value → Fields → Fields
with_raw k (some (str s)) d = set d k (str s)
with_raw k _ d = d

abbrev pub with_dict : String → Option Value → Fields → Fields
with_dict k (some (dict e)) d = set d k (dict e)
with_dict k _ d = d

unfoldable pub normalize_setting : Fields → Fields
unfolding find set strip
normalize_setting v = with_clean "invoke_separator" (find v "invoke_separator") (
    with_dict "parsed_options" (find v "parsed_options")
      (with_raw "raw_options" (find v "raw_options") (with_clean "script" (find v "script") end)))

abbrev pub put_setting : String → Fields → Fields → Fields
put_setting k end normalized = normalized
put_setting k (field j v rest) normalized = set normalized k (dict (field j v rest))

-- One entry of the settings; an entry without a key or a dict is dropped.
unfoldable pub normalize_entry : String → Value → Fields → Fields
unfolding normalize_setting set strip
normalize_entry k (dict v) normalized =
    if strip k == "" then normalized else put_setting (strip k) (normalize_setting v) normalized
normalize_entry k _ normalized = normalized

unfoldable pub normalize_entries : Fields → Fields → Fields
unfolding normalize_entry
normalize_entries end normalized = normalized
normalize_entries (field k v rest) normalized =
    normalize_entries rest (normalize_entry k v normalized)

-- `normalize_integration_settings`
unfoldable pub normalize_integration_settings : Value → Fields
unfolding normalize_entries
normalize_integration_settings (dict d) = normalize_entries d end
normalize_integration_settings _ = end

-- `_normalized_integration_state_schema`
unfoldable pub normalized_schema : Value → Value
normalized_schema (int (ℤ.pos n)) = if leb 2 n then int (ℤ.pos n) else int (ℤ.pos 1)
normalized_schema _ = int (ℤ.pos 1)

abbrev pub items_of : Value → Items
items_of (list xs) = xs
items_of _ = nil

abbrev pub keys_to_items : List String → Items
keys_to_items [] = nil
keys_to_items (k ∷ ks) = cons (str k) (keys_to_items ks)

-- `{key: settings[key] for key in keys if key in settings}`
unfoldable pub settings_of : List String → Fields → Fields
unfolding find set
settings_of [] settings = end
settings_of (k ∷ ks) settings =
    let rest = settings_of ks settings in
    elim (find settings k) [ none ↦ rest | some v ↦ field k v rest ]

abbrev pub or_legacy : Option String → Option String → Option String
or_legacy (some k) legacy = some k
or_legacy none legacy = legacy

-- The default key: the declared one, or the first that is installed.
abbrev pub or_first : Option String → List String → Option String
or_first (some k) ks = some k
or_first none [] = none
or_first none (k ∷ ks) = some k

-- The default is among the installed keys.
abbrev pub with_default : Option String → List String → List String
with_default none ks = ks
with_default (some k) ks = if contains ks k then ks else k ∷ ks

unfoldable pub declared_default : Fields → Option String
unfolding clean_integration_key find
declared_default doc =
    or_legacy (clean_integration_key (get_or doc "default_integration" null))
      (clean_integration_key (get_or doc "integration" null))

unfoldable pub installed_keys : Fields → List String
unfolding dedupe_integration_keys find
installed_keys doc = dedupe_integration_keys (items_of (get_or doc "installed_integrations" null))

-- The default key and the installed keys of the normalized state.
unfoldable pub default_of : Fields → Option String
unfolding declared_default installed_keys
default_of doc = or_first (declared_default doc) (installed_keys doc)

unfoldable pub keys_of : Fields → List String
unfolding default_of installed_keys
keys_of doc = with_default (default_of doc) (installed_keys doc)

-- The entries of the default: set, or removed where there is none.
abbrev pub with_default_key : Option String → Fields → Fields
with_default_key (some k) d = set (set d "integration" (str k)) "default_integration" (str k)
with_default_key none d = without "default_integration" (without "integration" d)

-- `normalize_integration_state`
unfoldable pub normalize_integration_state : Fields → Fields
unfolding normalized_schema default_of keys_of settings_of normalize_integration_settings find set
    without
normalize_integration_state doc =
    let keys = keys_of doc in
    set
      (set
        (with_default_key (default_of doc) (
          set doc "integration_state_schema"
            (normalized_schema (get_or doc "integration_state_schema" null))))
        "installed_integrations" (list (keys_to_items keys)))
      "integration_settings"
      (dict (
        settings_of keys (normalize_integration_settings (get_or doc "integration_settings" null))))

-- `default_integration_key`
unfoldable pub default_integration_key : Fields → Option String
unfolding clean_integration_key find
default_integration_key state =
    clean_integration_key
      (or_else (get_or state "default_integration" null) (get_or state "integration" null))

-- `installed_integration_keys`, of a state whose entry is a list
unfoldable pub installed_integration_keys : Fields → List String
unfolding dedupe_integration_keys find
installed_integration_keys state =
    dedupe_integration_keys (items_of (get_or state "installed_integrations" (list nil)))
