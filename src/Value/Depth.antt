-- ===== src/Value/Depth.antt =====
-- How deep dicts are nested in a value. Lists do not count.
use alharistech_platform.Base.{ℕ, zero, suc, ◌≤◌, max, String, ◌≡◌, some, arith, string_eq}
use alharistech_platform.Value.{
  Value, null, bool, int, str, list, dict, Items, nil, cons, Fields, end, field, find, set,
  drop_items,
}

unfoldable mutual
  pub depth : Value → ℕ
  depth null = 0
  depth (bool b) = 0
  depth (int n) = 0
  depth (str s) = 0
  depth (list xs) = depth_items xs
  depth (dict fs) = suc (depth_fields fs)

  -- The deepest of the entries, and of the elements.
  pub depth_fields : Fields → ℕ
  depth_fields (field key entry rest) = max (depth entry) (depth_fields rest)
  depth_fields end = 0

  pub depth_items : Items → ℕ
  depth_items (cons element rest) = max (depth element) (depth_items rest)
  depth_items nil = 0

pub depth-find :
    (fs : Fields) (k : String) (v : Value) → find fs k ≡ some v → depth v ≤ depth_fields fs
unfolding depth find
depth-find end k v h = ground arith
depth-find (field j w fs) k v h = ground (arith, depth-find fs k v)

pub depth_fields-set_str :
    (fs : Fields) (k : String) (s : String) → depth_fields (set fs k (str s)) ≤ depth_fields fs
unfolding depth set
depth_fields-set_str end k s = omega arith
depth_fields-set_str (field j w fs) k s = ground (arith, depth_fields-set_str fs k s)

pub depth_items-drop : (n : ℕ) (xs : Items) → depth_items (drop_items n xs) ≤ depth_items xs
unfolding depth drop_items
depth_items-drop zero xs = omega arith
depth_items-drop (suc n) nil = omega arith
depth_items-drop (suc n) (cons x xs) = omega (arith, depth_items-drop n xs)
