-- ===== src/Base/Dict.antt =====
-- Python's `dict`: an association list in insertion order. Proofs elsewhere go by the laws.
use alharistech_platform.Base.{
  ◌≡◌, refl, ◌||◌, Option, none, some, List, [], ◌∷◌, arith, Eq, ◌==◌, contains, if◌then◌else◌,
}

abbrev pub Dict {ℓ κ} : Type ℓ → Type κ → Type (ℓ ⊔ κ)
Dict K V = List (K × V)

unfoldable pub keys {ℓ κ} : {K : Type ℓ} {V : Type κ} → Dict K V → List K
keys [] = []
keys ((k, _) ∷ d) = k ∷ keys d

module _ {ℓ κ} {K : Type ℓ} {V : Type κ} ⦃e : Eq K⦄ where
  -- `d.get(k)`
  unfoldable pub get : Dict K V → K → Option V
  get [] k = none
  get ((j, v) ∷ d) k = if k == j then some v else get d k

  -- `d[k] = v`
  unfoldable pub put : Dict K V → K → V → Dict K V
  put [] k v = (k, v) ∷ []
  put ((j, w) ∷ d) k v = if k == j then (j, v) ∷ d else (j, w) ∷ put d k v

  -- A change of the value at `k`, if there is one.
  unfoldable pub adjust : Dict K V → K → (V → V) → Dict K V
  adjust [] k f = []
  adjust ((j, w) ∷ d) k f = if k == j then (j, f w) ∷ d else (j, w) ∷ adjust d k f

  pub get-nil : (k : K) → get [] k ≡ none
  unfolding get
  get-nil k = refl

  pub get-put :
      (d : Dict K V) (k j : K) (v : V) → get (put d k v) j ≡ (if j == k then some v else get d j)
  unfolding get put
  get-put [] k j v = refl
  get-put (_ ∷ d) k j v = ground (arith, get-put d k j v)

  pub get-put_self : (d : Dict K V) (k : K) (v : V) → get (put d k v) k ≡ some v
  get-put_self d k v = ground (arith, get-put d k k v)

  pub contains-keys-put :
      (d : Dict K V) (k j : K) (v : V)
      → contains (keys (put d k v)) j ≡ (j == k || contains (keys d) j)
  unfolding keys put
  contains-keys-put [] k j v = refl
  contains-keys-put (_ ∷ d) k j v = ground (arith, contains-keys-put d k j v)
