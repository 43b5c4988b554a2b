-- ===== src/Bundle/CatalogStack/Sorted.antt =====
-- What sorting the sources of a stack keeps: which they are, and that their ids differ.
use alharistech_platform.Base.{
  All, String, false, List, [], ◌∷◌, ◌==◌, string_eq, ◌≡◌, sym, subst, arith, Bool-cases, ◌⊎◌, inl,
  inr,
}
use alharistech_platform.Bundle.Catalog.{CatalogSource}
use alharistech_platform.Bundle.CatalogStack.{precedes, insert, sort}
use alharistech_platform.Bundle.CatalogStack.Order.{All-insert}

-- No two sources of one id.
abbrev pub AreApart : List CatalogSource → Type 0
AreApart [] = Unit
AreApart (a ∷ sources) = All (λ b. (b.id == a.id) ≡ false) sources × AreApart sources

abbrev pub Among : CatalogSource → List CatalogSource → Type 0
Among a [] = ⊥
Among a (b ∷ bs) = (a ≡ b) ⊎ Among a bs

pub All-Among :
    (P : CatalogSource → Type 0) (a : CatalogSource) (sources : List CatalogSource)
    → Among a sources
    → All P sources
    → P a
All-Among P a [] m h = elim m [ ]
All-Among P a (b ∷ bs) (inl e) (p, h) = subst P (sym e) p
All-Among P a (b ∷ bs) (inr m) (p, h) = All-Among P a bs m h

-- What holds of the sources in order holds of the sources.
All-of_insert :
    (P : CatalogSource → Type 0) (a : CatalogSource) (sources : List CatalogSource)
    → All P (insert a sources)
    → All P (a ∷ sources)
unfolding insert
All-of_insert P a [] h = h
All-of_insert P a (b ∷ bs) h = elim (Bool-cases (precedes b a)) [
  | inl e ↦ swap (All-of_insert P a bs) (rw e at h)
  | inr e ↦ rw e at h
]
  where
    swap : (All P (insert a bs) → All P (a ∷ bs)) → All P (b ∷ insert a bs) → All P (a ∷ b ∷ bs)
    swap before (p, h) = ((before h).0, (p, (before h).1))

pub All-of_sort :
    (P : CatalogSource → Type 0) (sources : List CatalogSource)
    → All P (sort sources)
    → All P sources
unfolding sort
All-of_sort P [] h = tt
All-of_sort P (a ∷ sources) h =
    let both = All-of_insert P a (sort sources) h in (both.0, All-of_sort P sources both.1)

All-sort :
    (P : CatalogSource → Type 0) (sources : List CatalogSource)
    → All P sources
    → All P (sort sources)
unfolding sort
All-sort P [] h = tt
All-sort P (a ∷ sources) (p, h) = All-insert P a (sort sources) p (All-sort P sources h)

Among-of_insert :
    (x a : CatalogSource) (sources : List CatalogSource)
    → Among x (insert a sources)
    → Among x (a ∷ sources)
unfolding insert
Among-of_insert x a [] m = m
Among-of_insert x a (b ∷ bs) m = elim (Bool-cases (precedes b a)) [
  | inl e ↦ swap (Among-of_insert x a bs) (rw e at m)
  | inr e ↦ rw e at m
]
  where
    swap :
        (Among x (insert a bs) → Among x (a ∷ bs))
        → Among x (b ∷ insert a bs)
        → Among x (a ∷ b ∷ bs)
    swap before (inl e) = inr (inl e)
    swap before (inr m) = elim (before m) [ inl e ↦ inl e | inr n ↦ inr (inr n) ]

pub Among-of_sort :
    (x : CatalogSource) (sources : List CatalogSource) → Among x (sort sources) → Among x sources
unfolding sort
Among-of_sort x [] m = m
Among-of_sort x (a ∷ sources) m = elim (Among-of_insert x a (sort sources) m) [
  | inl e ↦ inl e
  | inr n ↦ inr (Among-of_sort x sources n)
]

apart_above : (s t : String) → (s == t) ≡ false → (t == s) ≡ false
apart_above s t h = ground (arith, h)

insert-AreApart :
    (a : CatalogSource) (sources : List CatalogSource)
    → All (λ b. (b.id == a.id) ≡ false) sources
    → AreApart sources
    → AreApart (insert a sources)
unfolding insert
insert-AreApart a [] h d = (tt, tt)
insert-AreApart a (b ∷ bs) (h, hs) (d, ds) = elim (Bool-cases (precedes b a)) [
  | inl e ↦ rw e (
    All-insert (λ x. (x.id == b.id) ≡ false) a bs (apart_above b.id a.id h) d,
    insert-AreApart a bs hs ds,
  )
  | inr e ↦ rw e ((h, hs), (d, ds))
]

pub sort-AreApart : (sources : List CatalogSource) → AreApart sources → AreApart (sort sources)
unfolding sort
sort-AreApart [] d = tt
sort-AreApart (a ∷ sources) (h, d) =
    insert-AreApart a (sort sources) (All-sort (λ b. (b.id == a.id) ≡ false) sources h)
      (sort-AreApart sources d)
