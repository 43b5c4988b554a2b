-- ===== src/Authentication/Examples.antt =====
-- A configuration with a host and its subdomains, and patterns that validation lets through.
use alharistech_platform.Base.{
  String, All, true, not, false, ◌≢◌, ◌⊎◌, ◌&&◌, ◌≡◌, refl, some, [], ◌∷◌, string_eq,
}
use alharistech_platform.Value.{Value, str, list, dict, nil, cons, end, field, null}
use alharistech_platform.Exception.{value_error, ok, err}
use alharistech_platform.Authentication.Hosts.{
  is_valid_host_pattern, glob, lower, keeps_authorization,
}
use alharistech_platform.Authentication.Config.{
  AuthConfigEntry, load_auth_config, hosts_of, find_entries, supported_auth_schemes,
}
use alharistech_platform.Authentication.Matching.{NamedBy}
use alharistech_platform.Authentication.Named.{find_entries-named, keeps_authorization-named}

abbrev with_host : String → Value
with_host host = dict (
    field "providers"
      (list (
        cons
          (dict (
            field "hosts" (list (cons (str host) (cons (str " *.GitHub.com") nil))) (
              field "provider" (str "github")
                (field "auth" (str "bearer") (field "token_env" (str "GH_TOKEN") end)))))
          nil))
      end)

abbrev entry : AuthConfigEntry
entry = record {
  hosts = "github.com" ∷ "*.github.com" ∷ [];
  provider = "github";
  auth = "bearer";
  token = null;
  token_env = str "GH_TOKEN";
  tenant_id = null;
  client_id = null;
  client_secret_env = null;
}

loaded : load_auth_config supported_auth_schemes (some (with_host "github.com")) ≡ ok (entry ∷ [])
unfolding load_auth_config string_eq supported_auth_schemes
loaded = refl

found : find_entries (some "API.github.com") (entry ∷ []) ≡ ok (entry ∷ [])
unfolding find_entries string_eq
found = refl

lowered : lower "API.github.com" ≡ ok "api.github.com"
unfolding lower
lowered = refl

not_found : find_entries (some "github.com.evil.org") (entry ∷ []) ≡ ok []
unfolding find_entries string_eq
not_found = refl

refused :
    load_auth_config supported_auth_schemes (some (with_host "*github.com"))
    ≡ err (value_error "invalid host pattern")
unfolding load_auth_config string_eq
refused = refl

-- "?" is let through, and matches any character.
accepted : is_valid_host_pattern "g?thub.com" ≡ true
unfolding is_valid_host_pattern
accepted = refl

matched : glob "g?thub.com" "gathub.com" ≡ true
unfolding glob string_eq
matched = refl

-- So is "[", which begins a set of characters; without its "]" it stands for itself.
matched_in_set :
    (glob "[ab].com" "a.com" && glob "[!ab-d].com" "e.com" && not (glob "[!ab-d].com" "c.com"))
    ≡ true
unfolding glob string_eq
matched_in_set = refl

matched_unclosed : (glob "[ab.com" "[ab.com" && not (glob "[]a]" "b")) ≡ true
unfolding glob string_eq
matched_unclosed = refl

find_entries-named_example : All (λ e. NamedBy "api.github.com" e.hosts) (entry ∷ [])
find_entries-named_example =
    find_entries-named supported_auth_schemes (some (with_host "github.com")) "API.github.com"
      "api.github.com" (entry ∷ []) (entry ∷ []) loaded ((refl, (refl, tt)), tt) lowered found

abbrev https : String
https = "https"

abbrev github_hosts : Value
github_hosts = list (cons (str "github.com") (cons (str "*.GitHub.com") nil))

hosts_read : hosts_of github_hosts ≡ ok entry.hosts
unfolding hosts_of string_eq
hosts_read = refl

kept : keeps_authorization "https" "https" "API.github.com" entry.hosts ≡ ok true
unfolding keeps_authorization string_eq
kept = refl

dropped : keeps_authorization "https" "http" "api.github.com" entry.hosts ≡ ok false
unfolding keeps_authorization string_eq
dropped = refl

keeps_authorization-named_example :
    NamedBy "api.github.com" entry.hosts × ((https ≢ https) ⊎ (https ≡ https))
keeps_authorization-named_example =
    keeps_authorization-named github_hosts entry.hosts https https "API.github.com" "api.github.com"
      hosts_read (refl, (refl, tt)) lowered kept
