-- ===== src/Integration/State/Normal.antt =====
-- What is read back from a normalized state.
use alharistech_platform.Base.{
  Bool, String, true, Option, none, some, List, [], ◌∷◌, contains, ◌==◌, string_eq, if◌then◌else◌,
  ◌≡◌, refl, sym, subst, ◌∙◌, arith, ==-refl,
}
use alharistech_platform.Value.{
  Value, null, str, list, Fields, end, field, find, or_default, or_else, set,
}
use alharistech_platform.Workflow.Inputs.{without}
use alharistech_platform.Integration.State.{
  clean_integration_key, keys_to_items, or_legacy, or_first, with_default, with_default_key,
  declared_default, installed_keys, default_of, keys_of, normalize_integration_state,
  default_integration_key, installed_integration_keys,
}
use alharistech_platform.Integration.State.Keys.{
  IsKeyOrNone, AreKeys, IsKey-default_of, keys_of-AreKeys, contains-keys_of,
  clean_integration_key-str, dedupe_integration_keys-keys_to_items,
}

find-set :
    (d : Fields) (k j : String) (v : Value)
    → find (set d k v) j ≡ (if j == k then some v else find d j)
unfolding find set
find-set end k j v = refl
find-set (field i w d) k j v = ground (arith, find-set d k j v)

find-without :
    (k : String) (d : Fields) (j : String)
    → find (without k d) j ≡ (if j == k then none else find d j)
unfolding find without
find-without k end j = ground arith
find-without k (field i w d) j = ground (arith, find-without k d j)

-- The default key, if there is one, is among the keys.
abbrev pub has_default : Option String → List String → Bool
has_default none ks = true
has_default (some k) ks = contains ks k

legacy_self : (o : Option String) → or_legacy o o ≡ o
legacy_self none = refl
legacy_self (some k) = refl

first_self :
    (o : Option String) (ks : List String)
    → or_first (or_first o ks) (with_default (or_first o ks) ks) ≡ or_first o ks
first_self none [] = refl
first_self none (k ∷ ks) = refl
first_self (some k) ks = refl

with_default_self :
    (o : Option String) (ks : List String) → with_default o (with_default o ks) ≡ with_default o ks
with_default_self none ks = refl
with_default_self (some k) ks = ground (arith, ==-refl k)

module _ (doc : Fields) where
  abbrev normal : Fields
  normal = normalize_integration_state doc

  abbrev default_value : Option String → Option Value
  default_value none = none
  default_value (some k) = some (str k)

  find-installed : find normal "installed_integrations" ≡ some (list (keys_to_items (keys_of doc)))
  unfolding normalize_integration_state string_eq
  find-installed = rw (find-set, find-set)

  find-with_default_key :
      (o : Option String) (d : Fields)
      → (find (with_default_key o d) "default_integration" ≡ default_value o)
        × (find (with_default_key o d) "integration" ≡ default_value o)
  unfolding string_eq
  find-with_default_key none d = (rw find-without, rw (find-without, find-without))
  find-with_default_key (some k) d = (rw find-set, rw (find-set, find-set))

  find-default :
      (find normal "default_integration" ≡ default_value (default_of doc))
      × (find normal "integration" ≡ default_value (default_of doc))
  unfolding normalize_integration_state string_eq
  find-default = (
    rw (find-set, find-set, (find-with_default_key (default_of doc) _).0),
    rw (find-set, find-set, (find-with_default_key (default_of doc) _).1),
  )

  clean-default :
      (o : Option String)
      → IsKeyOrNone o
      → clean_integration_key (or_default (default_value o) null) ≡ o
  unfolding clean_integration_key
  clean-default none h = refl
  clean-default (some k) h = clean_integration_key-str k h

  chosen-default :
      (o : Option String)
      → IsKeyOrNone o
      → clean_integration_key
          (or_else (or_default (default_value o) null) (or_default (default_value o) null))
        ≡ o
  unfolding clean_integration_key
  chosen-default none h = refl
  chosen-default (some k) h = rw h.1 (clean_integration_key-str k h)

  default_read : default_integration_key normal ≡ default_of doc
  unfolding default_integration_key
  default_read =
      rw (find-default.0, find-default.1) (chosen-default (default_of doc) (IsKey-default_of doc))

  installed_read : installed_integration_keys normal ≡ keys_of doc
  unfolding installed_integration_keys
  installed_read =
      rw find-installed (dedupe_integration_keys-keys_to_items (keys_of doc) (keys_of-AreKeys doc))

  contained : (o : Option String) → default_of doc ≡ o → has_default o (keys_of doc) ≡ true
  contained none h = refl
  contained (some k) h = contains-keys_of doc k h

  -- The installed keys that are read from a normalized state are clean and all different, and the
  -- default key that is read from it, if there is one, is one of them.
  pub normalize_integration_state-AreKeys :
      AreKeys (installed_integration_keys (normalize_integration_state doc))
      × (has_default
            (default_integration_key (normalize_integration_state doc))
            (installed_integration_keys (normalize_integration_state doc))
          ≡ true)
  normalize_integration_state-AreKeys = (
    subst AreKeys (sym installed_read) (keys_of-AreKeys doc),
    rw (default_read, installed_read) (contained (default_of doc) refl),
  )

  declared_again : declared_default normal ≡ default_of doc
  unfolding declared_default
  declared_again =
      rw (find-default.0, find-default.1, clean-default (default_of doc) (IsKey-default_of doc))
        (legacy_self (default_of doc))

  installed_again : installed_keys normal ≡ keys_of doc
  unfolding installed_keys
  installed_again =
      rw find-installed (dedupe_integration_keys-keys_to_items (keys_of doc) (keys_of-AreKeys doc))

  default_again : default_of normal ≡ default_of doc
  unfolding default_of keys_of
  default_again =
      rw (declared_again, installed_again) (first_self (declared_default doc) (installed_keys doc))

  keys_again : keys_of normal ≡ keys_of doc
  unfolding keys_of
  keys_again =
      rw (default_again, installed_again) (with_default_self (default_of doc) (installed_keys doc))

-- Normalizing a normalized state again leaves the default key and the installed keys that are read
-- from it.
pub normalize_integration_state-again :
    (doc : Fields)
    → (default_integration_key (normalize_integration_state (normalize_integration_state doc))
        ≡ default_integration_key (normalize_integration_state doc))
      × (installed_integration_keys (normalize_integration_state (normalize_integration_state doc))
          ≡ installed_integration_keys (normalize_integration_state doc))
normalize_integration_state-again doc = (
  default_read (normalize_integration_state doc) ∙ default_again doc ∙ sym (default_read doc),
  installed_read (normalize_integration_state doc) ∙ keys_again doc ∙ sym (installed_read doc),
)
