-- ===== src/Bundle/CatalogStack/Order.antt =====
-- The order of the sources in a stack.
use Prim.Native.String.{[] as empty_text, ◌∷◌ as ◌▸◌}
use alharistech_platform.Base.{
  All, String, Bool, true, false, not, ◌&&◌, ◌||◌, List, [], ◌∷◌, ◌≡◌, refl, arith, Bool-cases, inl,
  inr,
}
use alharistech_platform.Value.{ℤ}
use alharistech_platform.Value.Compare.{same_number}
use alharistech_platform.Bundle.Catalog.{CatalogSource}
use alharistech_platform.Bundle.CatalogStack.{text_below, below, precedes, insert, sort}

-- Strict orders in which a value below another is below or above every third.
abbrev implies : Bool → Bool → Bool
implies a b = not a || b

text_below-between :
    (s t u : String) → implies (text_below s u) (text_below s t || text_below t u) ≡ true
unfolding text_below
text_below-between s t empty_text = refl
text_below-between s empty_text (e ▸ u) = ground arith
text_below-between empty_text (d ▸ t) (e ▸ u) = refl
text_below-between (c ▸ s) (d ▸ t) (e ▸ u) = ground (arith, text_below-between s t u)

text_below-above : (s t : String) → (text_below s t && text_below t s) ≡ false
unfolding text_below
text_below-above empty_text empty_text = refl
text_below-above empty_text (d ▸ t) = refl
text_below-above (c ▸ s) empty_text = refl
text_below-above (c ▸ s) (d ▸ t) = ground (arith, text_below-above s t)

below-between : (a b c : ℤ) → implies (below a c) (below a b || below b c) ≡ true
unfolding below
below-between (ℤ.pos a) (ℤ.pos b) (ℤ.pos c) = ground arith
below-between (ℤ.pos a) (ℤ.pos b) (ℤ.negsuc c) = ground arith
below-between (ℤ.pos a) (ℤ.negsuc b) (ℤ.pos c) = ground arith
below-between (ℤ.pos a) (ℤ.negsuc b) (ℤ.negsuc c) = ground arith
below-between (ℤ.negsuc a) (ℤ.pos b) (ℤ.pos c) = ground arith
below-between (ℤ.negsuc a) (ℤ.pos b) (ℤ.negsuc c) = ground arith
below-between (ℤ.negsuc a) (ℤ.negsuc b) (ℤ.pos c) = ground arith
below-between (ℤ.negsuc a) (ℤ.negsuc b) (ℤ.negsuc c) = ground arith

same_number-below : (a b : ℤ) → same_number a b ≡ (not (below a b) && not (below b a))
unfolding below
same_number-below (ℤ.pos a) (ℤ.pos b) = ground arith
same_number-below (ℤ.pos a) (ℤ.negsuc b) = ground arith
same_number-below (ℤ.negsuc a) (ℤ.pos b) = ground arith
same_number-below (ℤ.negsuc a) (ℤ.negsuc b) = ground arith

below-above : (a b : ℤ) → (below a b && below b a) ≡ false
unfolding below
below-above (ℤ.pos a) (ℤ.pos b) = ground arith
below-above (ℤ.pos a) (ℤ.negsuc b) = ground arith
below-above (ℤ.negsuc a) (ℤ.pos b) = ground arith
below-above (ℤ.negsuc a) (ℤ.negsuc b) = ground arith

precedes-between :
    (x y z : CatalogSource) → precedes x y ≡ false → precedes y z ≡ false → precedes x z ≡ false
unfolding precedes
precedes-between x y z h k = ground (
  arith,
  h,
  k,
  same_number-below x.priority y.priority,
  same_number-below y.priority z.priority,
  same_number-below x.priority z.priority,
  below-between x.priority y.priority z.priority,
  below-between z.priority x.priority y.priority,
  below-between y.priority z.priority x.priority,
  below-between y.priority x.priority z.priority,
  below-between z.priority y.priority x.priority,
  below-between x.priority z.priority y.priority,
  text_below-between x.id y.id z.id,
)

pub precedes-above : (x y : CatalogSource) → precedes x y ≡ true → precedes y x ≡ false
unfolding precedes
precedes-above x y h = ground (
  arith,
  h,
  same_number-below x.priority y.priority,
  same_number-below y.priority x.priority,
  below-above x.priority y.priority,
  text_below-above x.id y.id,
)

-- No source comes after one that it precedes.
abbrev pub IsSorted : List CatalogSource → Type 0
IsSorted [] = Unit
IsSorted (a ∷ sources) = All (λ b. precedes b a ≡ false) sources × IsSorted sources

pub All-insert :
    (P : CatalogSource → Type 0) (a : CatalogSource) (sources : List CatalogSource)
    → P a
    → All P sources
    → All P (insert a sources)
unfolding insert
All-insert P a [] p h = (p, tt)
All-insert P a (b ∷ bs) p (q, h) = elim (Bool-cases (precedes b a)) [
  | inl e ↦ rw e (q, All-insert P a bs p h)
  | inr e ↦ rw e (p, (q, h))
]

All-after :
    (x a : CatalogSource) (sources : List CatalogSource)
    → precedes x a ≡ false
    → All (λ b. precedes b x ≡ false) sources
    → All (λ b. precedes b a ≡ false) sources
All-after x a [] e h = tt
All-after x a (b ∷ bs) e (q, h) = (precedes-between b x a q e, All-after x a bs e h)

insert-IsSorted :
    (a : CatalogSource) (sources : List CatalogSource)
    → IsSorted sources
    → IsSorted (insert a sources)
unfolding insert
insert-IsSorted a [] h = (tt, tt)
insert-IsSorted a (b ∷ bs) (h, k) = elim (Bool-cases (precedes b a)) [
  | inl e ↦
      rw e (
        All-insert (λ x. precedes x b ≡ false) a bs (precedes-above b a e) h,
        insert-IsSorted a bs k,
      )
  | inr e ↦ rw e ((e, All-after b a bs e h), (h, k))
]

pub sort-IsSorted : (sources : List CatalogSource) → IsSorted (sort sources)
unfolding sort
sort-IsSorted [] = tt
sort-IsSorted (a ∷ sources) = insert-IsSorted a (sort sources) (sort-IsSorted sources)
