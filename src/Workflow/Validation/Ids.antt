-- ===== src/Workflow/Validation/Ids.antt =====
-- The ids that `_validate_steps` comes across, in the order in which it does.
use alharistech_platform.Base.{
  ℕ, zero, suc, String, Bool, true, false, ◌≡◌, refl, ap, ◌∙◌, List, [], ◌∷◌, arith, contains,
  string_eq, if◌then◌else◌,
}
use alharistech_platform.Value.{
  Value, null, str, list, dict, Items, nil, cons, Fields, end, field, find, get_or,
}
use alharistech_platform.Workflow.Validation.{Problem, Ledger, Check, going, ◌⨟◌, report}
use alharistech_platform.Workflow.Validation.Rules.{Sound, Sound-seq, Sound-report}

abbrev pub AreDifferent : List String → Type 0
AreDifferent [] = Unit
AreDifferent (x ∷ xs) = (contains xs x ≡ false) × AreDifferent xs

-- The ids of a list of steps and of the steps below them, put before the ids that came earlier; the
-- template of a fan-out, whose steps get ids of their own when it runs, has none here.
abbrev pub ids_below : (Items → List String → List String) → Value → List String → List String
ids_below ids (list xs) acc = ids xs acc
ids_below ids _ acc = acc

unfoldable pub ids_in_cases :
    (Items → List String → List String) → Fields → List String → List String
ids_in_cases ids end acc = acc
ids_in_cases ids (field key v rest) acc = ids_in_cases ids rest (ids_below ids v acc)

unfoldable pub ids_in_switch :
    (Items → List String → List String) → Value → List String → List String
unfolding ids_in_cases
ids_in_switch ids (dict cases) acc = ids_in_cases ids cases acc
ids_in_switch ids _ acc = acc

unfoldable pub ids_in_step :
    (Items → List String → List String) → Fields → List String → List String
unfolding ids_in_switch find
ids_in_step ids cfg acc = ids_below ids (get_or cfg "default" null) (
    ids_in_switch ids (get_or cfg "cases" null) (
      ids_below ids (get_or cfg "steps" null)
        (ids_below ids (get_or cfg "else" null) (ids_below ids (get_or cfg "then" null) acc))))

abbrev pub put_id : Value → List String → List String
put_id (str id) acc = id ∷ acc
put_id _ acc = acc

unfoldable pub ids_of_step : (Items → List String → List String) → Value → List String → List String
unfolding ids_in_step find
ids_of_step ids (dict cfg) acc = ids_in_step ids cfg (put_id (get_or cfg "id" null) acc)
ids_of_step ids _ acc = acc

unfoldable pub ids_of_all : (Items → List String → List String) → Items → List String → List String
unfolding ids_of_step
ids_of_all ids nil acc = acc
ids_of_all ids (cons step rest) acc = ids_of_all ids rest (ids_of_step ids step acc)

-- The fuel bounds the levels of nesting that are looked into.
unfoldable pub ids_within : ℕ → Items → List String → List String
unfolding ids_of_all
ids_within zero steps acc = acc
ids_within (suc fuel) steps acc = ids_of_all (ids_within fuel) steps acc

-- A check that ends without errors has seen these ids, and none twice.
abbrev pub Sees : (List String → List String) → Ledger → Ledger → Type 0
Sees f l m = (m.seen ≡ f l.seen) × (AreDifferent l.seen → AreDifferent m.seen)

pub Sound-then :
    (f g : List String → List String) (p q : Ledger → Check)
    → Sound (Sees f) p
    → Sound (Sees g) q
    → Sound (Sees (λ acc. g (f acc))) (λ l. p l ⨟ q)
Sound-then f g p q =
    Sound-seq (Sees f) (Sees g) (Sees (λ acc. g (f acc))) p q
      (λ l m n h k. (k.0 ∙ ap g h.0, λ d. k.1 (h.1 d)))

pub Sound-still : Sound (Sees (λ acc. acc)) (λ l. going l)
Sound-still l e = (e, (refl, λ d. d))

pub Sound-noted : (ps : List Problem) → Sound (Sees (λ acc. acc)) (λ l. going (report ps l))
Sound-noted ps = Sound-report (Sees (λ acc. acc)) ps (λ l e. (refl, λ d. d))

pub Sound-fails :
    (f : List String → List String) (p : Problem) → Sound (Sees f) (λ l. going (report (p ∷ []) l))
Sound-fails f p = Sound-report (Sees f) (p ∷ []) (λ l e. ground (arith, e))

pub Sound-if :
    (f : List String → List String) (b : Bool) (p q : Ledger → Check)
    → Sound (Sees f) p
    → Sound (Sees f) q
    → Sound (Sees f) (λ l. if b then p l else q l)
Sound-if f true p q hp hq = hp
Sound-if f false p q hp hq = hq
