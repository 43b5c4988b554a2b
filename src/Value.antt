-- ===== src/Value.antt =====
-- The values of a YAML or JSON document, as Python holds them: `None`, `bool`, `int`, `str`, `list`
-- and `dict` with text keys. A list and the entries of a dict are types of their own.
pub mod Depth
pub mod Compare
use alharistech_platform.Base.{
  ℕ, zero, suc, String, ◌<>◌, Bool, true, false, not, Option, none, some, ◌==◌, string_eq, decimal,
  if◌then◌else◌,
}

-- `negsuc n` is -(n + 1).
pub data ℤ : Type 0 where
  pos : ℕ → ℤ
  negsuc : ℕ → ℤ

mutual
  pub data Value : Type 0 where
    null : Value
    bool : Bool → Value
    int : ℤ → Value
    str : String → Value
    list : Items → Value
    dict : Fields → Value

  pub data Items : Type 0 where
    nil : Items
    cons : Value → Items → Items

  pub data Fields : Type 0 where
    end : Fields
    field : String → Value → Fields → Fields

-- `bool(v)`
abbrev pub truthy : Value → Bool
truthy null = false
truthy (bool b) = b
truthy (int (ℤ.pos zero)) = false
truthy (int _) = true
truthy (str s) = not (s == "")
truthy (list nil) = false
truthy (list _) = true
truthy (dict end) = false
truthy (dict _) = true

-- `a or b`
abbrev pub or_else : Value → Value → Value
or_else a b = if truthy a then a else b

-- `d.get(k)`, with `none` for a key that is not there
unfoldable pub find : Fields → String → Option Value
find end k = none
find (field j v fs) k = if k == j then some v else find fs k

abbrev pub or_default : Option Value → Value → Value
or_default none d = d
or_default (some v) d = v

-- `d.get(k, default)`
abbrev pub get_or : Fields → String → Value → Value
get_or fs k d = or_default (find fs k) d

-- `d[k] = v`
unfoldable pub set : Fields → String → Value → Fields
set end k v = field k v end
set (field j w fs) k v = if k == j then field j v fs else field j w (set fs k v)

-- `l + [v]`
unfoldable pub append_item : Items → Value → Items
append_item nil v = cons v nil
append_item (cons x xs) v = cons x (append_item xs v)

unfoldable pub count_items : Items → ℕ
count_items nil = 0
count_items (cons x xs) = suc (count_items xs)

-- `xs[n:]`
unfoldable pub drop_items : ℕ → Items → Items
drop_items zero xs = xs
drop_items (suc n) nil = nil
drop_items (suc n) (cons x xs) = drop_items n xs

-- `xs + ys`
unfoldable pub append_items : Items → Items → Items
append_items nil ys = ys
append_items (cons x xs) ys = cons x (append_items xs ys)

-- `{**a, **b}`
unfoldable pub merge : Fields → Fields → Fields
unfolding set
merge a end = a
merge a (field k v b) = merge (set a k v) b

-- `str(v)` of a value that is no list and no dict; `none` stands for the text of the others.
unfoldable pub to_text : Value → Option String
unfolding decimal
to_text null = some "None"
to_text (bool true) = some "True"
to_text (bool false) = some "False"
to_text (int (ℤ.pos n)) = some (decimal n)
to_text (int (ℤ.negsuc n)) = some ("-" <> decimal (suc n))
to_text (str s) = some s
to_text (list xs) = none
to_text (dict fs) = none
