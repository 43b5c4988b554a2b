-- ===== src/Bundle/Records/Refines.antt =====
-- The list of records as a map from the ids of bundles, which is all that the installer asks of it.
use alharistech_platform.Base.{
  String, Bool, true, false, Option, none, some, List, [], ◌∷◌, ◌++◌, ◌==◌, string_eq,
  if◌then◌else◌, ◌≡◌, refl, ap, ◌∙◌, arith, Bool-cases, inl, inr, ==-refl,
}
use alharistech_platform.Bundle.Records.{
  InstalledBundleRecord, find_record, remove_record, upsert_record,
}
use alharistech_platform.Bundle.Records.Laws.{
  find-append, find_record-upsert_record, find_record-remove_record,
}

-- What an installation and a removal do to the records.
pub data Change : Type 0 where
  upserts : InstalledBundleRecord → Change
  removes : String → Change

abbrev change_records : Change → List InstalledBundleRecord → List InstalledBundleRecord
change_records (upserts r) rs = upsert_record rs r
change_records (removes id) rs = remove_record rs id

abbrev pub changed_records : List Change → List InstalledBundleRecord → List InstalledBundleRecord
changed_records [] rs = rs
changed_records (c ∷ cs) rs = changed_records cs (change_records c rs)

-- The abstract state: the record of each bundle that is installed.
abbrev pub Installed : Type 0
Installed = String → Option InstalledBundleRecord

abbrev change_map : Change → Installed → Installed
change_map (upserts r) m id = if r.bundle_id == id then some r else m id
change_map (removes gone) m id = if gone == id then none else m id

abbrev pub changed_map : List Change → Installed → Installed
changed_map [] m = m
changed_map (c ∷ cs) m = changed_map cs (change_map c m)

-- No two records of one bundle.
abbrev pub OneEach : List InstalledBundleRecord → Type 0
OneEach [] = Unit
OneEach (r ∷ rs) = (find_record rs r.bundle_id ≡ none) × OneEach rs

abbrev Agree : Installed → Installed → Type 0
Agree m n = (id : String) → m id ≡ n id

Agree-change_map :
    (c : Change) (m n : Installed) → Agree m n → Agree (change_map c m) (change_map c n)
Agree-change_map (upserts r) m n h id = ap (λ o. if r.bundle_id == id then some r else o) (h id)
Agree-change_map (removes gone) m n h id = ap (λ o. if gone == id then none else o) (h id)

Agree-changed_map :
    (cs : List Change) (m n : Installed) → Agree m n → Agree (changed_map cs m) (changed_map cs n)
Agree-changed_map [] m n h = h
Agree-changed_map (c ∷ cs) m n h = Agree-changed_map cs _ _ (Agree-change_map c m n h)

find-change_records :
    (c : Change) (rs : List InstalledBundleRecord)
    → Agree (find_record (change_records c rs)) (change_map c (find_record rs))
find-change_records (upserts r) rs id = find_record-upsert_record rs r id
find-change_records (removes gone) rs id = find_record-remove_record rs gone id

none_if : {A : Type 0} (b : Bool) (o : Option A) → o ≡ none → (if b then none else o) ≡ none
none_if true o h = refl
none_if false o h = h

OneEach-remove_record :
    (rs : List InstalledBundleRecord) (id : String) → OneEach rs → OneEach (remove_record rs id)
unfolding remove_record
OneEach-remove_record [] id h = tt
OneEach-remove_record (r ∷ rs) id (h, k) = elim (Bool-cases (r.bundle_id == id)) [
  | inl e ↦ rw e (OneEach-remove_record rs id k)
  | inr e ↦ rw e (
    find_record-remove_record rs id r.bundle_id ∙ none_if (id == r.bundle_id) _ h,
    OneEach-remove_record rs id k,
  )
]

OneEach-snoc :
    (rs : List InstalledBundleRecord) (r : InstalledBundleRecord)
    → OneEach rs
    → find_record rs r.bundle_id ≡ none
    → OneEach (rs ++ (r ∷ []))
unfolding find_record
OneEach-snoc [] r h k = (refl, tt)
OneEach-snoc (s ∷ rs) r (h, l) k = elim (Bool-cases (s.bundle_id == r.bundle_id)) [
  | inl e ↦ ground (arith, rw e at k)
  | inr e ↦ (ground (arith, find-append rs r s.bundle_id, h, e), OneEach-snoc rs r l (rw e at k))
]

OneEach-change_records :
    (c : Change) (rs : List InstalledBundleRecord) → OneEach rs → OneEach (change_records c rs)
unfolding upsert_record remove_record
OneEach-change_records (upserts r) rs h =
    OneEach-snoc (remove_record rs r.bundle_id) r (OneEach-remove_record rs r.bundle_id h)
      (ground (arith, find_record-remove_record rs r.bundle_id r.bundle_id, ==-refl r.bundle_id))
OneEach-change_records (removes gone) rs h = OneEach-remove_record rs gone h

-- After any sequence of upserts and removals, a look-up in the list of records gives what the same
-- sequence gives in the map of bundles, and no bundle has two records, if none had two before.
pub changed_records-refines :
    (cs : List Change) (rs : List InstalledBundleRecord) (id : String)
    → OneEach rs
    → (find_record (changed_records cs rs) id ≡ changed_map cs (find_record rs) id)
      × OneEach (changed_records cs rs)
changed_records-refines [] rs id h = (refl, h)
changed_records-refines (c ∷ cs) rs id h =
    let later =
      changed_records-refines cs (change_records c rs) id (OneEach-change_records c rs h) in
    (later.0 ∙ Agree-changed_map cs _ _ (find-change_records c rs) id, later.1)
