-- ===== src/Authentication/Named.antt =====
-- Which hosts the entries of auth.json name.
use alharistech_platform.Base.{
  not, ◌&&◌, ◌≢◌, ◌⊎◌, inl, inr, Bool-cases, eq_of_==, arith, All, String, Bool, true, false,
  Option, none, some, List, [], ◌∷◌, ◌==◌, string_eq, if◌then◌else◌, ◌≡◌, refl, subst,
}
use alharistech_platform.Base.Dict.{Dict, get}
use alharistech_platform.Value.{
  Value, null, bool, int, str, list, dict, Items, nil, cons, Fields, get_or,
}
use alharistech_platform.Exception.{Result, ok, err, ◌>>=◌}
use alharistech_platform.Authentication.Hosts.{
  keeps_authorization, hostname_in_hosts, is_valid_host_pattern, lower,
}
use alharistech_platform.Authentication.Config.{
  AuthConfigEntry, all_filled, normalized_hosts, text_field, optional_field, check_scheme,
  check_token_source, check_hosts, hosts_of, entry_of, entry_of_fields, entries_of, providers_of,
  load_auth_config, entries_for_hostname, find_entries,
}
use alharistech_platform.Authentication.Matching.{
  NamedBy, valid-IsPattern, ArePatterns, ArePlain, hostname_in_hosts-NamedBy,
}

-- What holds of a result that is no exception.
abbrev pub Gives : {A : Type 0} → (A → Type 0) → Result A → Type 0
Gives P (ok a) = P a
Gives P (err e) = Unit

Gives-bind :
    {A B : Type 0} (P : A → Type 0) (Q : B → Type 0) (r : Result A) (f : A → Result B)
    → Gives P r
    → ((a : A) → P a → Gives Q (f a))
    → Gives Q (r >>= f)
Gives-bind P Q (ok a) f h g = g a h
Gives-bind P Q (err e) f h g = tt

abbrev Anything : {A : Type 0} → A → Type 0
Anything a = Unit

any_result : {A : Type 0} (r : Result A) → Gives Anything r
any_result (ok a) = tt
any_result (err e) = tt

Gives-if :
    {A : Type 0} (P : A → Type 0) (b : Bool) (r s : Result A)
    → (b ≡ true → Gives P r)
    → Gives P s
    → Gives P (if b then r else s)
Gives-if P true r s h k = h refl
Gives-if P false r s h k = k

check_hosts-ArePatterns : (hs : List String) → Gives ArePatterns (check_hosts hs)
unfolding check_hosts
check_hosts-ArePatterns [] = tt
check_hosts-ArePatterns (h ∷ hs) =
    Gives-if ArePatterns (is_valid_host_pattern h) _ _
      (λ valid.
        Gives-bind ArePatterns ArePatterns (check_hosts hs) _ (check_hosts-ArePatterns hs)
          (λ rest k. (valid-IsPattern h valid, k)))
      tt

hosts_of-ArePatterns : (v : Value) → Gives ArePatterns (hosts_of v)
unfolding hosts_of
hosts_of-ArePatterns (list (cons v vs)) =
    Gives-if ArePatterns (all_filled (cons v vs)) _ _
      (λ filled.
        Gives-bind Anything ArePatterns (normalized_hosts (cons v vs)) check_hosts (any_result _)
          (λ hs any. check_hosts-ArePatterns hs))
      tt
hosts_of-ArePatterns (list nil) = tt
hosts_of-ArePatterns null = tt
hosts_of-ArePatterns (bool b) = tt
hosts_of-ArePatterns (int n) = tt
hosts_of-ArePatterns (str s) = tt
hosts_of-ArePatterns (dict fs) = tt

abbrev HasPatterns : AuthConfigEntry → Type 0
HasPatterns entry = ArePatterns entry.hosts

module _ (registry : Dict String (List String)) where
  entry_of_fields-HasPatterns : (fs : Fields) → Gives HasPatterns (entry_of_fields registry fs)
  unfolding entry_of_fields
  entry_of_fields-HasPatterns fs =
      Gives-bind ArePatterns HasPatterns (hosts_of (get_or fs "hosts" null)) _
        (hosts_of-ArePatterns (get_or fs "hosts" null))
        (λ hosts h.
          Gives-bind Anything HasPatterns (text_field fs "provider") _ (any_result _) (λ provider p.
            Gives-bind Anything HasPatterns (text_field fs "auth") _ (any_result _) (λ auth a.
              Gives-bind Anything HasPatterns (optional_field fs "token") _ (any_result _)
                (λ token t.
                  Gives-bind Anything HasPatterns (optional_field fs "token_env") _ (any_result _)
                    (λ token_env e.
                      Gives-bind Anything HasPatterns (check_scheme (get registry provider) auth) _
                        (any_result _)
                        (λ u v.
                          Gives-bind Anything HasPatterns
                            (check_token_source fs auth token token_env) _ (any_result _)
                            (λ u' v'. h)))))))

  entry_of-HasPatterns : (v : Value) → Gives HasPatterns (entry_of registry v)
  unfolding entry_of
  entry_of-HasPatterns (dict fs) = entry_of_fields-HasPatterns fs
  entry_of-HasPatterns null = tt
  entry_of-HasPatterns (bool b) = tt
  entry_of-HasPatterns (int n) = tt
  entry_of-HasPatterns (str s) = tt
  entry_of-HasPatterns (list xs) = tt

  entries_of-HasPatterns : (vs : Items) → Gives (All HasPatterns) (entries_of registry vs)
  unfolding entries_of
  entries_of-HasPatterns nil = tt
  entries_of-HasPatterns (cons v vs) =
      Gives-bind HasPatterns (All HasPatterns) (entry_of registry v) _ (entry_of-HasPatterns v)
        (λ entry h.
          Gives-bind (All HasPatterns) (All HasPatterns) (entries_of registry vs) _
            (entries_of-HasPatterns vs) (λ entries k. (h, k)))

  providers_of-HasPatterns : (v : Value) → Gives (All HasPatterns) (providers_of registry v)
  unfolding providers_of
  providers_of-HasPatterns (list vs) = entries_of-HasPatterns vs
  providers_of-HasPatterns null = tt
  providers_of-HasPatterns (bool b) = tt
  providers_of-HasPatterns (int n) = tt
  providers_of-HasPatterns (str s) = tt
  providers_of-HasPatterns (dict fs) = tt

  load_auth_config-HasPatterns :
      (raw : Option Value) → Gives (All HasPatterns) (load_auth_config registry raw)
  unfolding load_auth_config
  load_auth_config-HasPatterns none = tt
  load_auth_config-HasPatterns (some (dict raw)) = providers_of-HasPatterns _
  load_auth_config-HasPatterns (some null) = tt
  load_auth_config-HasPatterns (some (bool b)) = tt
  load_auth_config-HasPatterns (some (int n)) = tt
  load_auth_config-HasPatterns (some (str s)) = tt
  load_auth_config-HasPatterns (some (list xs)) = tt

-- No host of an entry has a "?" or a "[" in it.
abbrev pub HasPlainHosts : AuthConfigEntry → Type 0
HasPlainHosts entry = ArePlain entry.hosts

abbrev NamesHost : String → AuthConfigEntry → Type 0
NamesHost host entry = NamedBy host entry.hosts

entries_for_hostname-Named :
    (host : String) (entries : List AuthConfigEntry)
    → All HasPatterns entries
    → All HasPlainHosts entries
    → All (NamesHost host) (entries_for_hostname host entries)
unfolding entries_for_hostname
entries_for_hostname-Named host [] h k = tt
entries_for_hostname-Named host (entry ∷ rest) (p, h) (q, k) =
    by_match (hostname_in_hosts host entry.hosts) refl (entries_for_hostname-Named host rest h k)
  where
    by_match :
        (b : Bool)
        → hostname_in_hosts host entry.hosts ≡ b
        → All (NamesHost host) (entries_for_hostname host rest)
        → All
            (NamesHost host)
            (if b then entry ∷ entries_for_hostname host rest else entries_for_hostname host rest)
    by_match true f l = (hostname_in_hosts-NamedBy host entry.hosts p q f, l)
    by_match false f l = l

-- The entries that are found for a host, in a configuration that `load_auth_config` has accepted and in
-- whose hosts neither "?" nor "[" stands, each name the host, in lower case: one of their hosts is that host, or it
-- is "*." and a suffix, and the host is the suffix after a dot and what comes before it.
pub find_entries-named :
    (registry : Dict String (List String)) (raw : Option Value) (host hostname : String)
    (entries found : List AuthConfigEntry)
    → load_auth_config registry raw ≡ ok entries
    → All (λ entry. ArePlain entry.hosts) entries
    → lower host ≡ ok hostname
    → find_entries (some host) entries ≡ ok found
    → All (λ entry. NamedBy hostname entry.hosts) found
unfolding find_entries
find_entries-named registry raw host hostname entries found loaded plain low e =
    subst (Gives (All (NamesHost hostname))) (rw low at e) (
      Gives-if (All (NamesHost hostname)) (hostname == "") (ok []) _ (λ empty. tt)
        (entries_for_hostname-Named hostname entries
          (subst (Gives (All HasPatterns)) loaded (load_auth_config-HasPatterns registry raw))
          plain))

-- A redirect that keeps the `Authorization` header, where the hosts are those that `load_auth_config`
-- accepts for an entry and neither "?" nor "[" stands in them, goes to a host that they name, in lower
-- case, and does not leave https.
pub keeps_authorization-named :
    (raw : Value) (hosts : List String) (old_scheme new_scheme new_host hostname : String)
    → hosts_of raw ≡ ok hosts
    → ArePlain hosts
    → lower new_host ≡ ok hostname
    → keeps_authorization old_scheme new_scheme new_host hosts ≡ ok true
    → NamedBy hostname hosts × ((old_scheme ≢ "https") ⊎ (new_scheme ≡ "https"))
unfolding keeps_authorization
keeps_authorization-named raw hosts old_scheme new_scheme new_host hostname accepted plain low e =
    let both : ok (
          hostname_in_hosts hostname hosts
          && not (old_scheme == "https" && not (new_scheme == "https")))
        ≡ ok true =
      rw low at e in
    kept (hostname_in_hosts hostname hosts) refl both
  where
    stays :
        ok (not (old_scheme == "https" && not (new_scheme == "https"))) ≡ ok true
        → (old_scheme ≢ "https") ⊎ (new_scheme ≡ "https")
    stays g = elim (Bool-cases (new_scheme == "https")) [
      | inl e ↦ inr (eq_of_== new_scheme "https" e)
      | inr e ↦ inl (λ p. ground (arith, g, e, p))
    ]

    kept :
        (b : Bool)
        → hostname_in_hosts hostname hosts ≡ b
        → ok (b && not (old_scheme == "https" && not (new_scheme == "https"))) ≡ ok true
        → NamedBy hostname hosts × ((old_scheme ≢ "https") ⊎ (new_scheme ≡ "https"))
    kept false f g = ground (arith, g)
    kept true f g = (
      hostname_in_hosts-NamedBy hostname hosts
          (subst (Gives ArePatterns) accepted (hosts_of-ArePatterns raw)) plain f,
      stays g,
    )
