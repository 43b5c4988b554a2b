-- ===== src/Bundle/CatalogStack/Precedence.antt =====
-- `CatalogStack.resolve` against the order of precedence. The stack stops at the first source that
-- offers the bundle, and that is a least one.
use alharistech_platform.Base.{
  All, String, false, Option, none, some, List, [], ◌∷◌, ◌==◌, string_eq, ◌≡◌, refl, sym, ap, ◌∙◌,
  arith, Bool-cases, ◌⊎◌, inl, inr, subst,
}
use alharistech_platform.Base.Dict
use alharistech_platform.Base.Dict.{Dict}
use alharistech_platform.Value.{Value}
use alharistech_platform.Exception.{Result, ok, err}
use alharistech_platform.Bundle.Catalog.{CatalogSource, CatalogEntry, with_provenance}
use alharistech_platform.Bundle.CatalogStack.{
  Payloads, ResolvedBundle, read_payload, entries_for, store_payload, resolve, precedes, sort,
}
use alharistech_platform.Bundle.CatalogStack.Order.{IsSorted, sort-IsSorted, precedes-above}
use alharistech_platform.Bundle.CatalogStack.Sorted.{
  AreApart, Among, All-Among, All-of_sort, Among-of_sort, sort-AreApart,
}

precedes_self : (a : CatalogSource) → precedes a a ≡ false
precedes_self a = elim (Bool-cases (precedes a a)) [
  | inl e ↦ absurd (ground (arith, precedes-above a a e))
  | inr e ↦ e
]

abbrev pub provided : Option CatalogEntry → CatalogSource → Option CatalogEntry
provided none source = none
provided (some entry) source = some (with_provenance entry source)

module _ (fetch : CatalogSource → Result Value) where
  -- The entry that a source has for a bundle, if its payload is there or can be read.
  abbrev pub offer : CatalogSource → String → Payloads → Option CatalogEntry
  offer source bundle_id payloads = elim (entries_for fetch source payloads).0 [
    | err e ↦ none
    | ok entries ↦ Dict.get entries bundle_id
  ]

  offered : CatalogSource → String → Option (Dict String CatalogEntry) → Option CatalogEntry
  offered source bundle_id (some entries) = Dict.get entries bundle_id
  offered source bundle_id none = elim (read_payload fetch source) [
    | err e ↦ none
    | ok entries ↦ Dict.get entries bundle_id
  ]

  offer-offered :
      (a : CatalogSource) (id : String) (payloads : Payloads)
      → offer a id payloads ≡ offered a id (Dict.get payloads a.id)
  unfolding entries_for offered
  offer-offered a id payloads = go (Dict.get payloads a.id) (read_payload fetch a)
    where
      go :
          (o : Option (Dict String CatalogEntry)) (r : Result (Dict String CatalogEntry))
          → elim (elim o as (λ _. Result (Dict String CatalogEntry) × Payloads) [
            | some entries ↦ (ok entries, payloads)
            | none ↦ store_payload fetch a r payloads
          ]).0
              as (λ _. Option CatalogEntry) [ err e ↦ none | ok entries ↦ Dict.get entries id ]
            ≡ elim o as (λ _. Option CatalogEntry) [
              | some entries ↦ Dict.get entries id
              | none ↦ elim r [ err e ↦ none | ok entries ↦ Dict.get entries id ]
            ]
      go (some entries) r = refl
      go none (ok entries) = refl
      go none (err e) = refl

  get-entries_for :
      (a : CatalogSource) (id : String) (payloads : Payloads)
      → (id == a.id) ≡ false
      → Dict.get (entries_for fetch a payloads).1 id ≡ Dict.get payloads id
  unfolding entries_for
  get-entries_for a id payloads h = go (Dict.get payloads a.id) (read_payload fetch a)
    where
      go :
          (o : Option (Dict String CatalogEntry)) (r : Result (Dict String CatalogEntry))
          → Dict.get
              (elim o as (λ _. Result (Dict String CatalogEntry) × Payloads) [
                | some entries ↦ (ok entries, payloads)
                | none ↦ store_payload fetch a r payloads
              ]).1
              id
            ≡ Dict.get payloads id
      go (some entries) r = refl
      go none (ok entries) = rw (Dict.get-put payloads a.id id entries, h) refl
      go none (err e) = refl

  offer-apart :
      (a b : CatalogSource) (id : String) (payloads : Payloads)
      → (b.id == a.id) ≡ false
      → offer b id (entries_for fetch a payloads).1 ≡ offer b id payloads
  offer-apart a b id payloads h =
      offer-offered b id _
      ∙ ap (offered b id) (get-entries_for a b.id payloads h)
      ∙ sym (offer-offered b id payloads)

  -- What the answer of a stack is: one of its sources, with the entry that the source offers; and no
  -- source that offers one precedes it.
  abbrev pub IsFirst : List CatalogSource → String → Payloads → ResolvedBundle → Type 0
  IsFirst sources bundle_id payloads r =
      Among r.source sources
      × (provided (offer r.source bundle_id payloads) r.source ≡ some r.entry)
      × All (λ s. (offer s bundle_id payloads ≡ none) ⊎ (precedes s r.source ≡ false)) sources

  unchanged :
      (a : CatalogSource) (sources : List CatalogSource) (id : String) (payloads : Payloads)
      (first : CatalogSource)
      → All (λ b. (b.id == a.id) ≡ false) sources
      → All
          (λ s. (offer s id (entries_for fetch a payloads).1 ≡ none) ⊎ (precedes s first ≡ false))
          sources
      → All (λ s. (offer s id payloads ≡ none) ⊎ (precedes s first ≡ false)) sources
  unchanged a [] id payloads first d h = tt
  unchanged a (b ∷ bs) id payloads first (d, ds) (h, hs) =
      (rw (offer-apart a b id payloads d) at h, unchanged a bs id payloads first ds hs)

  answered :
      (a : CatalogSource) (sources : List CatalogSource) (id : String) (payloads : Payloads)
      (entry : CatalogEntry)
      → IsSorted (a ∷ sources)
      → offer a id payloads ≡ some entry
      → IsFirst (a ∷ sources) id payloads (record { entry = with_provenance entry a; source = a })
  answered a sources id payloads entry (s, ss) e =
      (inl refl, ap (λ o. provided o a) e, (inr (precedes_self a), all_later a sources s))
    where
      all_later :
          (a : CatalogSource) (sources : List CatalogSource)
          → All (λ b. precedes b a ≡ false) sources
          → All (λ b. (offer b id payloads ≡ none) ⊎ (precedes b a ≡ false)) sources
      all_later a [] h = tt
      all_later a (b ∷ bs) (h, hs) = (inr h, all_later a bs hs)

  skipped :
      (a : CatalogSource) (sources : List CatalogSource) (id : String) (payloads : Payloads)
      (r : ResolvedBundle)
      → All (λ b. (b.id == a.id) ≡ false) sources
      → offer a id payloads ≡ none
      → IsFirst sources id (entries_for fetch a payloads).1 r
      → IsFirst (a ∷ sources) id payloads r
  skipped a sources id payloads r d e (m, o, l) = (
    inr m,
    rw
        (offer-apart a r.source id payloads
          (All-Among (λ b. (b.id == a.id) ≡ false) r.source sources m d))
        at o,
    (inl e, unchanged a sources id payloads r.source d l),
  )

  of_offer :
      (a : CatalogSource) (sources : List CatalogSource) (id : String) (payloads : Payloads)
      (r : ResolvedBundle) (o : Option CatalogEntry)
      → IsSorted (a ∷ sources)
      → All (λ b. (b.id == a.id) ≡ false) sources
      → offer a id payloads ≡ o
      → ((resolve fetch sources id (entries_for fetch a payloads).1).0 ≡ ok r
          → IsFirst sources id (entries_for fetch a payloads).1 r)
      → (elim o as (λ _. Result ResolvedBundle × Payloads) [
        | some entry ↦ (
          ok (record { entry = with_provenance entry a; source = a }),
          (entries_for fetch a payloads).1,
        )
        | none ↦ resolve fetch sources id (entries_for fetch a payloads).1
      ]).0
        ≡ ok r
      → IsFirst (a ∷ sources) id payloads r
  of_offer a sources id payloads r (some entry) s d e rest h =
      subst (IsFirst (a ∷ sources) id payloads) (cc) (answered a sources id payloads entry s e)
  of_offer a sources id payloads r none s d e rest h = skipped a sources id payloads r d e (rest h)

  of_answer :
      (a : CatalogSource) (sources : List CatalogSource) (id : String) (payloads : Payloads)
      (r : ResolvedBundle) (answer : Result (Dict String CatalogEntry))
      → IsSorted (a ∷ sources)
      → All (λ b. (b.id == a.id) ≡ false) sources
      → offer a id payloads ≡ elim answer [ err e ↦ none | ok entries ↦ Dict.get entries id ]
      → ((resolve fetch sources id (entries_for fetch a payloads).1).0 ≡ ok r
          → IsFirst sources id (entries_for fetch a payloads).1 r)
      → (elim answer as (λ _. Result ResolvedBundle × Payloads) [
        | err e ↦ (err e, (entries_for fetch a payloads).1)
        | ok entries ↦ elim (Dict.get entries id) [
          | some entry ↦ (
            ok (record { entry = with_provenance entry a; source = a }),
            (entries_for fetch a payloads).1,
          )
          | none ↦ resolve fetch sources id (entries_for fetch a payloads).1
        ]
      ]).0
        ≡ ok r
      → IsFirst (a ∷ sources) id payloads r
  of_answer a sources id payloads r (ok entries) s d e rest h =
      of_offer a sources id payloads r (Dict.get entries id) s d e rest h
  of_answer a sources id payloads r (err _) s d e rest h = absurd (cc)

  resolve_in_order-IsFirst :
      (sources : List CatalogSource) (id : String) (payloads : Payloads) (r : ResolvedBundle)
      → IsSorted sources
      → AreApart sources
      → (resolve fetch sources id payloads).0 ≡ ok r
      → IsFirst sources id payloads r
  unfolding resolve
  resolve_in_order-IsFirst [] id payloads r s d h = absurd (cc)
  resolve_in_order-IsFirst (a ∷ sources) id payloads r (s, ss) (d, ds) h =
      of_answer a sources id payloads r (entries_for fetch a payloads).0 (s, ss) d refl
        (resolve_in_order-IsFirst sources id (entries_for fetch a payloads).1 r ss ds) h

  -- Of sources with different ids, in any order, the stack that sorts them resolves a bundle at one of
  -- them that offers it, with that source's provenance, and no source that offers the bundle (with the
  -- payloads cached at the start and the fetcher) has a smaller priority, or the same and a smaller id.
  pub resolve-IsFirst :
      (sources : List CatalogSource) (id : String) (payloads : Payloads) (r : ResolvedBundle)
      → AreApart sources
      → (resolve fetch (sort sources) id payloads).0 ≡ ok r
      → IsFirst sources id payloads r
  resolve-IsFirst sources id payloads r d h =
      let first =
        resolve_in_order-IsFirst (sort sources) id payloads r (sort-IsSorted sources)
          (sort-AreApart sources d) h in
      (Among-of_sort r.source sources first.0, first.1, All-of_sort _ sources first.2)
