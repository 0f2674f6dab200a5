-- ===== src/Prelude/Result.antt =====
-- A call that returns or raises. The errors are data of the module that raises them.
use mathlib.Core.Path.{◌≡◌, refl, subst}
use mathlib.Core.Logic.{◌⊎◌, ◌↔◌, inl, inr}
use mathlib.Core.Bool.{Bool, true, false}
use mathlib.Core.List.{List, [], ◌∷◌}
use native.Mathlib.Omega.{arith}
use ai_inference_cost_optimi.Prelude.Lists.{All}

pub data Result {ℓ} (E A : Type ℓ) : Type ℓ where
  ok : A → Result E A
  err : E → Result E A

infixl 5 ◌>>=◌ ◌>>◌
abbrev pub ◌>>=◌ {ℓ} : {E A B : Type ℓ} → Result E A → (A → Result E B) → Result E B
ok a >>= f = f a
err e >>= f = err e

abbrev pub ◌>>◌ {ℓ} : {E A B : Type ℓ} → Result E A → Result E B → Result E B
m >> k = m >>= λ _. k

-- `if bad: raise e`
abbrev pub raise_if : {E : Type 0} → Bool → E → Result E Unit
raise_if true e = err e
raise_if false e = ok tt

-- What holds of a value if the call returns one.
abbrev pub OnOk : {E A : Type 0} → (A → Type 0) → Result E A → Type 0
OnOk P (ok a) = P a
OnOk P (err e) = Unit

pub at_ok : {E A : Type 0} (P : A → Type 0) (r : Result E A) {a : A} → OnOk P r → r ≡ ok a → P a
at_ok P r h e = subst (OnOk P) e h

pub OnOk-bind :
    {E A B : Type 0} (P : A → Type 0) (Q : B → Type 0) (m : Result E A) (f : A → Result E B)
    → OnOk P m
    → ((a : A) → P a → OnOk Q (f a))
    → OnOk Q (m >>= f)
OnOk-bind P Q (ok a) f h k = k a h
OnOk-bind P Q (err e) f h k = tt

pub OnOk-then :
    {E A B : Type 0} (Q : B → Type 0) (m : Result E A) (k : Result E B) → OnOk Q k → OnOk Q (m >> k)
OnOk-then Q (ok a) k h = h
OnOk-then Q (err e) k h = tt

-- A value that the first call returned, from which the second made this one.
abbrev pub Through : {E A B : Type 0} → Result E A → (A → Result E B) → B → Type 0
Through {E} {A} first second end = (between : A) × (first ≡ ok between) × (second between ≡ ok end)

no_value : {E B C : Type 0} {e : E} {b : B} → ◌≡◌ {A = Result E B} (err e) (ok b) → C
no_value h = absurd (cc)

pub bind-Through :
    {E A B : Type 0} (first : Result E A) (second : A → Result E B) {end : B}
    → (first >>= second) ≡ ok end
    → Through first second end
bind-Through (err e) second h = no_value h
bind-Through (ok between) second h = (between, refl, h)

pub raise_if-ok :
    {E B : Type 0} (bad : Bool) (e : E) (k : Result E B) {b : B}
    → (raise_if bad e >>= λ _. k) ≡ ok b
    → (bad ≡ false) × (k ≡ ok b)
raise_if-ok true e k h = cc
raise_if-ok false e k h = (refl, h)

pub Result-cases :
    {E A : Type 0} (r : Result E A) → ((a : A) × (r ≡ ok a)) ⊎ ((e : E) × (r ≡ err e))
Result-cases (ok a) = inl (a, refl)
Result-cases (err e) = inr (e, refl)

pub OnOk-any : {E A : Type 0} (r : Result E A) → OnOk (λ _. Unit) r
OnOk-any (ok a) = tt
OnOk-any (err e) = tt

-- `for x in xs: check(x)`, where a check may raise.
unfoldable pub check_all : {E A : Type 0} → (A → Result E Unit) → List A → Result E Unit
check_all check [] = ok tt
check_all check (x ∷ xs) = do check x; check_all check xs

pub check_all_iff :
    {E A : Type 0} (check : A → Result E Unit) (xs : List A)
    → (check_all check xs ≡ ok tt) ↔ All (λ x. check x ≡ ok tt) xs
unfolding check_all
check_all_iff check [] = (λ _. tt, λ _. refl)
check_all_iff check (x ∷ xs) = ground (arith, check_all_iff check xs)
