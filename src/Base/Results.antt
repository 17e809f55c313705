-- ===== src/Base/Results.antt =====
-- What a Go function returns beside an error: a value or the error.
use mathlib.Core.Path.{◌≡◌, refl}
use mathlib.Core.Logic.{◌⊎◌, ◌↔◌, inl, inr}
use mathlib.Core.List.{List, [], ◌∷◌}
use mgate_agent.Base.Tests.{if◌then◌else◌}
use mgate_agent.Base.Lists.{All}
use mathlib.Core.Bool.{Bool, true, false}

pub data Result {ℓ κ} (E : Type ℓ) (A : Type κ) : Type (ℓ ⊔ κ) where
  ok : A → Result E A
  err : E → Result E A

infixl 5 ◌>>=◌ ◌>>◌
abbrev pub ◌>>=◌ {ℓ κ μ} :
    {E : Type ℓ} {A : Type κ} {B : Type μ} → Result E A → (A → Result E B) → Result E B
ok a >>= f = f a
err e >>= f = err e

abbrev pub ◌>>◌ {ℓ μ} : {E : Type ℓ} {B : Type μ} → Result E (Unit {0}) → Result E B → Result E B
ok a >> m = m
err e >> m = err e

-- if bad { return err }
abbrev pub reject_if {ℓ} : {E : Type ℓ} → Bool → E → Result E (Unit {0})
reject_if true e = err e
reject_if false e = ok tt

pub Result-cases {ℓ κ} :
    {E : Type ℓ} {A : Type κ} (r : Result E A) → ((a : A) × (r ≡ ok a)) ⊎ ((e : E) × (r ≡ err e))
Result-cases (ok a) = inl (a, refl)
Result-cases (err e) = inr (e, refl)

-- if bad { return err }, one after the other
unfoldable pub first_failure {ℓ} : {E : Type ℓ} → List (Bool × E) → Result E (Unit {0})
first_failure [] = ok tt
first_failure ((bad, e) ∷ checks) = if bad then err e else first_failure checks

pub >>-iff {ℓ} :
    {E : Type ℓ} (m n : Result E (Unit {0})) → ((m >> n) ≡ ok tt) ↔ ((m ≡ ok tt) × (n ≡ ok tt))
>>-iff (ok tt) n = (λ h. (refl, h), λ h. h.1)
>>-iff (err e) n = (λ h. cc, λ h. cc)

pub first_failure_iff {ℓ} :
    {E : Type ℓ} (checks : List (Bool × E))
    → (first_failure checks ≡ ok tt) ↔ All (λ c. c.0 ≡ false) checks
unfolding first_failure
first_failure_iff [] = (λ h. tt, λ h. refl)
first_failure_iff ((true, e) ∷ checks) = (λ h. cc, λ h. cc)
first_failure_iff ((false, e) ∷ checks) =
    (λ h. (refl, (first_failure_iff checks).0 h), λ h. (first_failure_iff checks).1 h.1)
