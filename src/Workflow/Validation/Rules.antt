-- ===== src/Workflow/Validation/Rules.antt =====
-- How a check is followed: what it ends with, if it ends without errors.
use alharistech_platform.Base.{
  ◌≡◌, refl, List, [], ◌∷◌, ◌++◌, arith, Bool, true, false, if◌then◌else◌,
}
use alharistech_platform.Workflow.Validation.{
  Problem, Ledger, Check, going, raised, out_of_fuel, ◌⨟◌, report,
}

-- What holds of a ledger without errors at the end of a check.
abbrev pub Shows : (Ledger → Type 0) → Check → Type 0
Shows P (going l) = l.errors ≡ [] → P l
Shows P (raised e) = Unit
Shows P out_of_fuel = Unit

-- A check that ends without errors began without any, and then `R` holds of both ledgers.
abbrev pub Sound : (Ledger → Ledger → Type 0) → (Ledger → Check) → Type 0
Sound R f = (l : Ledger) → Shows (λ m. (l.errors ≡ []) × R l m) (f l)

pub Shows-map :
    (P Q : Ledger → Type 0) (c : Check) → ((l : Ledger) → P l → Q l) → Shows P c → Shows Q c
Shows-map P Q (going l) f h = λ e. f l (h e)
Shows-map P Q (raised e) f h = tt
Shows-map P Q out_of_fuel f h = tt

pub Sound-seq :
    (R S T : Ledger → Ledger → Type 0) (f g : Ledger → Check)
    → ((l m n : Ledger) → R l m → S m n → T l n)
    → Sound R f
    → Sound S g
    → Sound T (λ l. f l ⨟ g)
Sound-seq R S T f g join hf hg l = bound (f l) (hf l)
  where
    bound :
        (c : Check)
        → Shows (λ m. (l.errors ≡ []) × R l m) c
        → Shows (λ n. (l.errors ≡ []) × T l n) (c ⨟ g)
    bound (going m) h =
        Shows-map _ _ (g m) (λ n p. let q = h p.0 in (q.0, join l m n q.1 p.1)) (hg m)
    bound (raised e) h = tt
    bound out_of_fuel h = tt

pub append-nil_left : {A : Type 0} (xs ys : List A) → xs ++ ys ≡ [] → xs ≡ []
append-nil_left [] ys h = refl
append-nil_left (x ∷ xs) ys h = ground (arith, h)

pub append-nil_right : {A : Type 0} (xs ys : List A) → xs ++ ys ≡ [] → ys ≡ []
append-nil_right [] ys h = h
append-nil_right (x ∷ xs) ys h = ground (arith, h)

pub Sound-report :
    (R : Ledger → Ledger → Type 0) (problems : List Problem)
    → ((l : Ledger) → problems ≡ [] → R l (report problems l))
    → Sound R (λ l. going (report problems l))
Sound-report R problems f l e =
    (append-nil_left l.errors problems e, f l (append-nil_right l.errors problems e))

-- Nothing but that the errors have only grown.
abbrev pub Static : Type 0 → (Ledger → Check) → Type 0
Static P f = Sound (λ l m. P) f

pub Static-map : (P Q : Type 0) (f : Ledger → Check) → (P → Q) → Static P f → Static Q f
Static-map P Q f g h l = Shows-map _ _ (f l) (λ m p. (p.0, g p.1)) (h l)

pub Static-seq :
    (P Q : Type 0) (f g : Ledger → Check) → Static P f → Static Q g → Static (P × Q) (λ l. f l ⨟ g)
Static-seq P Q f g = Sound-seq (λ l m. P) (λ l m. Q) (λ l m. P × Q) f g (λ l m n p q. (p, q))

pub Static-going : (P : Type 0) → P → Static P (λ l. going l)
Static-going P p l e = (e, p)

pub Static-fails : (P : Type 0) (p : Problem) → Static P (λ l. going (report (p ∷ []) l))
Static-fails P p l e = ground (arith, append-nil_right l.errors (p ∷ []) e)

pub Static-if :
    (P : Type 0) (b : Bool) (f g : Ledger → Check)
    → (b ≡ true → Static P f)
    → (b ≡ false → Static P g)
    → Static P (λ l. if b then f l else g l)
Static-if P true f g hf hg = hf refl
Static-if P false f g hf hg = hg refl

pub Static-report :
    (P : Type 0) (problems : List Problem)
    → (problems ≡ [] → P)
    → Static P (λ l. going (report problems l))
Static-report P problems f = Sound-report (λ l m. P) problems (λ l e. f e)
