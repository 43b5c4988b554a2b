-- ===== src/Integration/State/Keys.antt =====
-- The keys of the installed integrations and the default one.
use alharistech_platform.Base.{
  String, Bool, true, false, ◌||◌, Option, none, some, List, [], ◌∷◌, ◌++◌, contains, ◌==◌,
  string_eq, if◌then◌else◌, ◌≡◌, refl, sym, ap, ◌∙◌, subst, arith, ==-refl,
}
use alharistech_platform.Base.Blank.{strip, strip-strip}
use alharistech_platform.Value.{
  Value, null, bool, int, str, list, dict, Items, nil, cons, Fields, get_or,
}
use alharistech_platform.Integration.State.{
  items_of, nonempty, clean_integration_key, add_key, dedupe_after, dedupe_integration_keys,
  keys_to_items, or_legacy, or_first, with_default, declared_default, installed_keys, default_of,
  keys_of,
}

-- A key as `clean_integration_key` gives it.
abbrev pub IsKey : String → Type 0
IsKey k = (strip k ≡ k) × ((k == "") ≡ false)

abbrev pub IsKeyOrNone : Option String → Type 0
IsKeyOrNone none = Unit
IsKeyOrNone (some k) = IsKey k

-- Different keys, each of them clean.
abbrev pub AreKeys : List String → Type 0
AreKeys [] = Unit
AreKeys (k ∷ ks) = IsKey k × (contains ks k ≡ false) × AreKeys ks

IsKey-nonempty : (s : String) → strip s ≡ s → IsKeyOrNone (nonempty s)
IsKey-nonempty s h = by_case (s == "") refl
  where
    by_case : (b : Bool) → (s == "") ≡ b → IsKeyOrNone (if b then none else some s)
    by_case true e = tt
    by_case false e = (h, e)

pub IsKey-clean_integration_key : (v : Value) → IsKeyOrNone (clean_integration_key v)
unfolding clean_integration_key
IsKey-clean_integration_key null = tt
IsKey-clean_integration_key (bool b) = tt
IsKey-clean_integration_key (int n) = tt
IsKey-clean_integration_key (str s) = IsKey-nonempty (strip s) (strip-strip s)
IsKey-clean_integration_key (list xs) = tt
IsKey-clean_integration_key (dict fs) = tt

pub clean_integration_key-str : (k : String) → IsKey k → clean_integration_key (str k) ≡ some k
unfolding clean_integration_key
clean_integration_key-str k h = rw (h.0, h.1)

eq_sym : (x y : String) → (x == y) ≡ (y == x)
eq_sym x y = ground arith

contains-snoc :
    (ks : List String) (k j : String) → contains (ks ++ (k ∷ [])) j ≡ (contains ks j || j == k)
contains-snoc [] k j = ground arith
contains-snoc (x ∷ ks) k j = ground (arith, contains-snoc ks k j)

AreKeys-snoc :
    (ks : List String) (k : String)
    → AreKeys ks
    → IsKey k
    → contains ks k ≡ false
    → AreKeys (ks ++ (k ∷ []))
AreKeys-snoc [] k h p n = (p, refl, tt)
AreKeys-snoc (x ∷ ks) k h p n = (
  h.0,
  ground (arith, contains-snoc ks k x, h.1, n, eq_sym x k),
  AreKeys-snoc ks k h.2 p (ground (arith, n)),
)

AreKeys-add_key :
    (seen : List String) (o : Option String)
    → AreKeys seen
    → IsKeyOrNone o
    → AreKeys (add_key seen o)
AreKeys-add_key seen none h p = h
AreKeys-add_key seen (some k) h p = by_case (contains seen k) refl
  where
    by_case : (b : Bool) → contains seen k ≡ b → AreKeys (if b then seen else seen ++ (k ∷ []))
    by_case true e = h
    by_case false e = AreKeys-snoc seen k h p e

AreKeys-dedupe_after :
    (seen : List String) (vs : Items) → AreKeys seen → AreKeys (dedupe_after seen vs)
unfolding dedupe_after
AreKeys-dedupe_after seen nil h = h
AreKeys-dedupe_after seen (cons v vs) h =
    AreKeys-dedupe_after (add_key seen (clean_integration_key v)) vs
      (AreKeys-add_key seen (clean_integration_key v) h (IsKey-clean_integration_key v))

pub AreKeys-dedupe_integration_keys : (vs : Items) → AreKeys (dedupe_integration_keys vs)
unfolding dedupe_integration_keys
AreKeys-dedupe_integration_keys vs = AreKeys-dedupe_after [] vs tt

contains-middle :
    (xs : List String) (k : String) (ks : List String) (x : String)
    → contains (xs ++ (k ∷ ks)) x ≡ false
    → (x == k) ≡ false
contains-middle [] k ks x h = ground (arith, h)
contains-middle (y ∷ xs) k ks x h = ground (arith, h, contains-middle xs k ks x)

append-nil : (xs : List String) → xs ++ [] ≡ xs
append-nil [] = refl
append-nil (x ∷ xs) = ap (λ ys. x ∷ ys) (append-nil xs)

append-snoc :
    (xs : List String) (k : String) (ks : List String) → (xs ++ (k ∷ [])) ++ ks ≡ xs ++ (k ∷ ks)
append-snoc [] k ks = refl
append-snoc (x ∷ xs) k ks = ap (λ ys. x ∷ ys) (append-snoc xs k ks)

add_key-clean_integration_key :
    (seen : List String) (k : String)
    → IsKey k
    → contains seen k ≡ false
    → add_key seen (clean_integration_key (str k)) ≡ seen ++ (k ∷ [])
add_key-clean_integration_key seen k h n = rw (clean_integration_key-str k h, n)

AreKeys-installed_keys : (doc : Fields) → AreKeys (installed_keys doc)
unfolding installed_keys
AreKeys-installed_keys doc =
    AreKeys-dedupe_integration_keys (items_of (get_or doc "installed_integrations" null))

IsKey-or_legacy :
    (a b : Option String) → IsKeyOrNone a → IsKeyOrNone b → IsKeyOrNone (or_legacy a b)
IsKey-or_legacy none b h k = k
IsKey-or_legacy (some s) b h k = h

IsKey-or_first :
    (a : Option String) (ks : List String)
    → IsKeyOrNone a
    → AreKeys ks
    → IsKeyOrNone (or_first a ks)
IsKey-or_first none [] h k = tt
IsKey-or_first none (x ∷ ks) h k = k.0
IsKey-or_first (some s) ks h k = h

pub IsKey-default_of : (doc : Fields) → IsKeyOrNone (default_of doc)
unfolding default_of declared_default
IsKey-default_of doc =
    IsKey-or_first (declared_default doc) (installed_keys doc)
      (IsKey-or_legacy (clean_integration_key (get_or doc "default_integration" null))
        (clean_integration_key (get_or doc "integration" null)) (IsKey-clean_integration_key _)
        (IsKey-clean_integration_key _))
      (AreKeys-installed_keys doc)

AreKeys-with_default :
    (o : Option String) (ks : List String)
    → IsKeyOrNone o
    → AreKeys ks
    → AreKeys (with_default o ks)
AreKeys-with_default none ks h k = k
AreKeys-with_default (some s) ks h k = by_case (contains ks s) refl
  where
    by_case : (b : Bool) → contains ks s ≡ b → AreKeys (if b then ks else s ∷ ks)
    by_case true e = k
    by_case false e = (h, e, k)

contains-with_default :
    (o : Option String) (ks : List String) (k : String)
    → o ≡ some k
    → contains (with_default o ks) k ≡ true
contains-with_default none ks k h = ground (arith, h)
contains-with_default (some s) ks k h = ground (arith, h, ==-refl k)

-- What is in the middle of a list of keys is a key, and is not in the part before it.
AreKeys-middle :
    (seen : List String) (k : String) (ks : List String)
    → AreKeys (seen ++ (k ∷ ks))
    → IsKey k × (contains seen k ≡ false)
AreKeys-middle [] k ks h = (h.0, refl)
AreKeys-middle (x ∷ seen) k ks h =
    let rest = AreKeys-middle seen k ks h.2 in
    (rest.0, ground (arith, rest.1, h.1, eq_sym x k, contains-middle seen k ks x))

dedupe_after-keys_to_items :
    (seen ks : List String)
    → AreKeys (seen ++ ks)
    → dedupe_after seen (keys_to_items ks) ≡ seen ++ ks
unfolding dedupe_after
dedupe_after-keys_to_items seen [] h = sym (append-nil seen)
dedupe_after-keys_to_items seen (k ∷ ks) h =
    let middle = AreKeys-middle seen k ks h in
    ap (λ xs. dedupe_after xs (keys_to_items ks))
      (add_key-clean_integration_key seen k middle.0 middle.1)
    ∙ dedupe_after-keys_to_items (seen ++ (k ∷ [])) ks
        (subst AreKeys (sym (append-snoc seen k ks)) h)
    ∙ append-snoc seen k ks

-- A list of keys that is written is read back as it is.
pub dedupe_integration_keys-keys_to_items :
    (ks : List String) → AreKeys ks → dedupe_integration_keys (keys_to_items ks) ≡ ks
unfolding dedupe_integration_keys
dedupe_integration_keys-keys_to_items ks h = dedupe_after-keys_to_items [] ks h

-- The keys of a normalized state are different and clean, and the default is one of them.
pub keys_of-AreKeys : (doc : Fields) → AreKeys (keys_of doc)
unfolding keys_of
keys_of-AreKeys doc =
    AreKeys-with_default (default_of doc) (installed_keys doc) (IsKey-default_of doc)
      (AreKeys-installed_keys doc)

pub contains-keys_of :
    (doc : Fields) (k : String) → default_of doc ≡ some k → contains (keys_of doc) k ≡ true
unfolding keys_of
contains-keys_of doc k h = contains-with_default (default_of doc) (installed_keys doc) k h
