-- ===== src/Bundle/Records/Laws.antt =====
-- What the operations on a list of records do, as seen by `find_record` and by the keys of components.
use alharistech_platform.Base.{
  String, true, not, ◌&&◌, ◌||◌, none, some, List, [], ◌∷◌, ◌++◌, ◌==◌, string_eq, if◌then◌else◌,
  ◌≡◌, refl, ap, ◌∙◌, arith, ==-refl, Bool-cases, inl, inr,
}
use alharistech_platform.Bundle.Component.{ComponentRef}
use alharistech_platform.Bundle.Records.{
  InstalledBundleRecord, find_record, remove_record, upsert_record, same_key, has_key, still_needed,
}

pub find-append :
    (rs : List InstalledBundleRecord) (r : InstalledBundleRecord) (j : String)
    → find_record (rs ++ (r ∷ [])) j ≡ elim (find_record rs j) [
      | some s ↦ some s
      | none ↦ if r.bundle_id == j then some r else none
    ]
unfolding find_record
find-append [] r j = refl
find-append (s ∷ rs) r j = ground (arith, find-append rs r j)

-- After `remove_record`, a look-up finds nothing under the removed id, and what it found under any other.
pub find_record-remove_record :
    (rs : List InstalledBundleRecord) (i j : String)
    → find_record (remove_record rs i) j ≡ (if i == j then none else find_record rs j)
unfolding find_record remove_record
find_record-remove_record [] i j = ground arith
find_record-remove_record (s ∷ rs) i j = ground (arith, find_record-remove_record rs i j)

-- After `upsert_record`, a look-up finds the new record under its id, and what it found under any other.
pub find_record-upsert_record :
    (rs : List InstalledBundleRecord) (r : InstalledBundleRecord) (j : String)
    → find_record (upsert_record rs r) j ≡ (if r.bundle_id == j then some r else find_record rs j)
unfolding upsert_record remove_record
find_record-upsert_record rs r j = ground (
  arith,
  find-append (remove_record rs r.bundle_id) r j,
  find_record-remove_record rs r.bundle_id j,
)

still_needed-append :
    (rs : List InstalledBundleRecord) (r : InstalledBundleRecord) (i : String) (c : ComponentRef)
    → still_needed (rs ++ (r ∷ [])) i c
      ≡ (still_needed rs i c || (not (r.bundle_id == i) && has_key r.contributed_components c))
unfolding still_needed
still_needed-append [] r i c = ground arith
still_needed-append (s ∷ rs) r i c = ground (arith, still_needed-append rs r i c)

still_needed-removed :
    (rs : List InstalledBundleRecord) (i : String) (c : ComponentRef)
    → still_needed (remove_record rs i) i c ≡ still_needed rs i c
unfolding still_needed remove_record
still_needed-removed [] i c = refl
still_needed-removed (s ∷ rs) i c = ground (arith, still_needed-removed rs i c)

-- What the other bundles need does not depend on a bundle's own record.
pub still_needed-upsert_record :
    (rs : List InstalledBundleRecord) (r : InstalledBundleRecord) (c : ComponentRef)
    → still_needed (upsert_record rs r) r.bundle_id c ≡ still_needed rs r.bundle_id c
unfolding upsert_record remove_record
still_needed-upsert_record rs r c = ground (
  arith,
  still_needed-append (remove_record rs r.bundle_id) r r.bundle_id c,
  still_needed-removed rs r.bundle_id c,
  ==-refl r.bundle_id,
)

-- Keys: two components with one key are in the same lists.
pub has_key-same :
    (xs : List ComponentRef) (c d : ComponentRef)
    → same_key d c ≡ true
    → has_key xs d ≡ has_key xs c
has_key-same [] c d h = refl
has_key-same (x ∷ xs) c d h = ground (arith, has_key-same xs c d h)

pub has_key-append :
    (xs : List ComponentRef) (c d : ComponentRef)
    → has_key (xs ++ (c ∷ [])) d ≡ (has_key xs d || same_key d c)
has_key-append [] c d = ground arith
has_key-append (x ∷ xs) c d = ground (arith, has_key-append xs c d)

pub still_needed-same :
    (rs : List InstalledBundleRecord) (i : String) (c d : ComponentRef)
    → same_key d c ≡ true
    → still_needed rs i d ≡ still_needed rs i c
unfolding still_needed
still_needed-same [] i c d h = refl
still_needed-same (r ∷ rs) i c d h =
    ground (arith, still_needed-same rs i c d h, has_key-same r.contributed_components c d h)

pub same_key_refl : (c : ComponentRef) → same_key c c ≡ true
same_key_refl c = ground (arith, ==-refl c.kind, ==-refl c.id)

remove_record-absent :
    (rs : List InstalledBundleRecord) (i : String)
    → find_record rs i ≡ none
    → remove_record rs i ≡ rs
unfolding find_record remove_record
remove_record-absent [] i h = refl
remove_record-absent (r ∷ rs) i h = elim (Bool-cases (r.bundle_id == i)) [
  | inl e ↦ ground (arith, h, e)
  | inr e ↦ ground (arith, h, e, remove_record-absent rs i)
]

remove_record-append :
    (rs : List InstalledBundleRecord) (r : InstalledBundleRecord)
    → remove_record (rs ++ (r ∷ [])) r.bundle_id ≡ remove_record rs r.bundle_id
unfolding remove_record
remove_record-append [] r = ground (arith, ==-refl r.bundle_id)
remove_record-append (s ∷ rs) r = ground (arith, remove_record-append rs r)

-- Removing a record that has just been added gives the records before.
pub remove_record-upsert_record :
    (rs : List InstalledBundleRecord) (r : InstalledBundleRecord)
    → find_record rs r.bundle_id ≡ none
    → remove_record (upsert_record rs r) r.bundle_id ≡ rs
unfolding upsert_record remove_record
remove_record-upsert_record rs r h =
    ap (λ xs. remove_record (xs ++ (r ∷ [])) r.bundle_id) (remove_record-absent rs r.bundle_id h)
    ∙ remove_record-append rs r
    ∙ remove_record-absent rs r.bundle_id h
