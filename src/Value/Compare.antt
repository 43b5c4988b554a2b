-- ===== src/Value/Compare.antt =====
-- Python's `==` on documents: `True` is 1 and `False` is 0, and the order of a dict's keys does not
-- count.
use alharistech_platform.Base.{
  Bool, true, false, ◌&&◌, ◌||◌, none, some, ◌≡◌, refl, leb, ◌==◌, string_eq,
}
use alharistech_platform.Value.{
  ℤ, Value, null, bool, int, str, list, dict, Items, nil, cons, Fields, end, field, find,
}

abbrev number_of : Bool → ℤ
number_of true = ℤ.pos 1
number_of false = ℤ.pos 0

abbrev pub same_number : ℤ → ℤ → Bool
same_number (ℤ.pos m) (ℤ.pos n) = leb m n && leb n m
same_number (ℤ.negsuc m) (ℤ.negsuc n) = leb m n && leb n m
same_number _ _ = false

abbrev equal_number : ℤ → Value → Bool
equal_number n (bool b) = same_number n (number_of b)
equal_number n (int m) = same_number n m
equal_number n _ = false

-- No more keys in the first dict than in the second, and no fewer.
abbrev same_size : Fields → Fields → Bool
same_size end end = true
same_size (field j v fs) (field k w gs) = same_size fs gs
same_size _ _ = false

unfoldable mutual
  pub equal : Value → Value → Bool
  equal null null = true
  equal (bool a) v = equal_number (number_of a) v
  equal (int a) v = equal_number a v
  equal (str s) (str t) = s == t
  equal (list xs) (list ys) = equal_items xs ys
  equal (dict fs) (dict gs) = same_size fs gs && within fs gs
  equal _ _ = false

  pub equal_items : Items → Items → Bool
  equal_items nil nil = true
  equal_items (cons x xs) (cons y ys) = equal x y && equal_items xs ys
  equal_items _ _ = false

  -- Each key of the first dict has an equal value in the second.
  pub within : Fields → Fields → Bool
  within end gs = true
  within (field k v fs) gs = elim (find gs k) [ none ↦ false | some w ↦ equal v w ] && within fs gs

-- `v in xs`
unfoldable pub has_item : Items → Value → Bool
unfolding equal find
has_item nil v = false
has_item (cons x xs) v = equal x v || has_item xs v

one_is_true : equal (int (ℤ.pos 1)) (bool true) ≡ true
unfolding equal
one_is_true = refl
