-- ===== src/Authentication/Config.antt =====
-- `load_auth_config` and `find_entries_for_url` of authentication/config.py, after `json.loads` and
-- `urlparse`.
use alharistech_platform.Base.{
  String, Bool, true, false, not, ◌&&◌, ◌||◌, Option, none, some, List, [], ◌∷◌, contains, ◌==◌,
  string_eq, if◌then◌else◌,
}
use alharistech_platform.Base.Blank.{strip}
use alharistech_platform.Base.Dict.{Dict, get}
use alharistech_platform.Value.{
  Value, null, str, list, dict, Items, nil, cons, Fields, find, get_or, truthy,
}
use alharistech_platform.Exception.{value_error, unmodelled, Result, ok, err, ◌>>=◌}
use alharistech_platform.Authentication.Hosts.{is_valid_host_pattern, hostname_in_hosts, lower}

-- An entry of auth.json; the fields that may be left out are values.
pub record AuthConfigEntry : Type 0 where
  pub hosts : List String
  pub provider : String
  pub auth : String
  pub token : Value
  pub token_env : Value
  pub tenant_id : Value
  pub client_id : Value
  pub client_secret_env : Value

-- The schemes that each provider of the registry supports.
unfoldable pub supported_auth_schemes : Dict String (List String)
supported_auth_schemes =
    ("azure-devops", "basic-pat" ∷ "bearer" ∷ "azure-cli" ∷ "azure-ad" ∷ [])
    ∷ ("github", "bearer" ∷ [])
    ∷ []

-- `if test: raise ValueError(...)`
abbrev pub refuse_if : Bool → String → Result (Unit {0})
refuse_if b message = if b then err (value_error message) else ok tt

-- `isinstance(v, str) and v.strip()`
unfoldable pub is_filled : Value → Bool
unfolding strip
is_filled (str s) = not (strip s == "")
is_filled v = false

unfoldable pub all_filled : Items → Bool
unfolding is_filled
all_filled nil = true
all_filled (cons v vs) = is_filled v && all_filled vs

-- `[h.strip().lower() for h in hosts]`
unfoldable pub normalized_hosts : Items → Result (List String)
unfolding strip lower
normalized_hosts nil = ok []
normalized_hosts (cons (str s) rest) =
    lower (strip s) >>= λ h. normalized_hosts rest >>= λ hs. ok (h ∷ hs)
normalized_hosts (cons v rest) = err unmodelled

unfoldable pub check_hosts : List String → Result (List String)
unfolding is_valid_host_pattern
check_hosts [] = ok []
check_hosts (h ∷ hs) =
    if is_valid_host_pattern h
    then (check_hosts hs >>= λ rest. ok (h ∷ rest))
    else err (value_error "invalid host pattern")

unfoldable pub hosts_of : Value → Result (List String)
unfolding all_filled normalized_hosts check_hosts
hosts_of (list (cons v vs)) =
    if all_filled (cons v vs)
    then (normalized_hosts (cons v vs) >>= check_hosts)
    else err (value_error "each host must be a non-empty string")
hosts_of v = err (value_error "'hosts' must be a non-empty array")

-- A field that must hold a text that is not empty.
unfoldable pub text_field : Fields → String → Result String
unfolding find
text_field fs key = elim (get_or fs key (str "")) [
  | str s ↦ if s == "" then err (value_error "must be a non-empty string") else ok s
  | _ ↦ err (value_error "must be a non-empty string")
]

-- A field that may be left out, or else is a text with more than blanks in it.
unfoldable pub optional_field : Fields → String → Result Value
unfolding find is_filled
optional_field fs key = elim (get_or fs key null) [
  | null ↦ ok null
  | v ↦ if is_filled v then ok v else err (value_error "must be a non-empty string")
]

unfoldable pub check_scheme : Option (List String) → String → Result (Unit {0})
check_scheme none auth = err (value_error "unknown provider")
check_scheme (some schemes) auth =
    refuse_if (not (contains schemes auth)) "provider does not support auth scheme"

-- The source of the token, which depends on the scheme.
unfoldable pub check_token_source : Fields → String → Value → Value → Result (Unit {0})
unfolding find is_filled
check_token_source fs auth token token_env =
    let tenant_id = get_or fs "tenant_id" null in
    let client_id = get_or fs "client_id" null in
    let client_secret_env = get_or fs "client_secret_env" null in
    if auth == "bearer" || auth == "basic-pat"
    then refuse_if (not (truthy token) && not (truthy token_env)) "requires 'token' or 'token_env'"
    else if auth == "azure-ad"
    then (refuse_if (not (truthy tenant_id && truthy client_id && truthy client_secret_env))
          "requires 'tenant_id', 'client_id', and 'client_secret_env'"
        >>= λ _.
            refuse_if
              (not (is_filled tenant_id && is_filled client_id && is_filled client_secret_env))
              "must be a non-empty string")
    else ok tt

module _ (registry : Dict String (List String)) where
  unfoldable pub entry_of_fields : Fields → Result AuthConfigEntry
  unfolding find hosts_of text_field optional_field check_scheme check_token_source get
  entry_of_fields fs = hosts_of (get_or fs "hosts" null) >>= λ hosts.
      text_field fs "provider" >>= λ provider. text_field fs "auth" >>= λ auth.
      optional_field fs "token" >>= λ token. optional_field fs "token_env" >>= λ token_env.
      check_scheme (get registry provider) auth >>= λ _.
      check_token_source fs auth token token_env >>= λ _. ok (record {
        hosts = hosts;
        provider = provider;
        auth = auth;
        token = token;
        token_env = token_env;
        tenant_id = get_or fs "tenant_id" null;
        client_id = get_or fs "client_id" null;
        client_secret_env = get_or fs "client_secret_env" null;
      })

  unfoldable pub entry_of : Value → Result AuthConfigEntry
  unfolding entry_of_fields
  entry_of (dict fs) = entry_of_fields fs
  entry_of v = err (value_error "must be a JSON object")

  unfoldable pub entries_of : Items → Result (List AuthConfigEntry)
  unfolding entry_of
  entries_of nil = ok []
  entries_of (cons v vs) = entry_of v >>= λ entry. entries_of vs >>= λ entries. ok (entry ∷ entries)

  unfoldable pub providers_of : Value → Result (List AuthConfigEntry)
  unfolding entries_of
  providers_of (list providers) = entries_of providers
  providers_of v = err (value_error "auth.json must contain a 'providers' array")

  -- `load_auth_config`; `none` for a file that is not there.
  unfoldable pub load_auth_config : Option Value → Result (List AuthConfigEntry)
  unfolding find providers_of
  load_auth_config none = ok []
  load_auth_config (some (dict raw)) = providers_of (get_or raw "providers" null)
  load_auth_config (some v) = err (value_error "auth.json must be a JSON object")

unfoldable pub entries_for_hostname : String → List AuthConfigEntry → List AuthConfigEntry
unfolding hostname_in_hosts
entries_for_hostname hostname [] = []
entries_for_hostname hostname (entry ∷ rest) =
    let found = entries_for_hostname hostname rest in
    if hostname_in_hosts hostname entry.hosts then entry ∷ found else found

-- `find_entries_for_url`, of the URL's host name; `none` where it has none.
unfoldable pub find_entries : Option String → List AuthConfigEntry → Result (List AuthConfigEntry)
unfolding entries_for_hostname lower
find_entries none entries = ok []
find_entries (some host) entries = lower host >>= λ hostname.
    if hostname == "" then ok [] else ok (entries_for_hostname hostname entries)
