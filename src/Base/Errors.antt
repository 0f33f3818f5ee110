-- ===== src/Base/Errors.antt =====
-- Exceptions as values: the exception classes of the program with their messages.
use Prim.Native.Nat.{ℕ}
use Prim.Native.String.{String}
use mathlib.Core.Path.{◌≡◌, refl}
use mathlib.Core.Logic.{◌⊎◌, inl, inr}
use mathlib.Core.Bool.{Bool, true, false}

-- One constructor for each exception class that the modelled code raises or lets through.
-- `provider_failure` is an exception that an adapter raises by itself.
pub data Error : Type 0 where
  validation policy_error pricing_error value_error : String → Error
  execution_gate lifecycle result_contract provider_contract : String → Error
  type_error invalid_operation provider_failure : String → Error
  completion_error repository_security paid_authorization human_authorization : String → Error
  runpod_error database_error : String → Error
  -- the code, the message and the HTTP status
  gateway_error : String → String → ℕ → Error

pub data Result {ℓ} (A : Type ℓ) : Type ℓ where
  ok : A → Result A
  err : Error → Result A

infixl 5 ◌>>◌
module _ {κ ℓ} {Before : Type κ} {After : Type ℓ} where
  infixl 5 ◌>>=◌
  -- A step whose value the rest uses: an exception ends the chain.
  abbrev pub ◌>>=◌ : Result Before → (Before → Result After) → Result After
  err raised >>= rest = err raised
  ok value >>= rest = rest value

  -- A chain that returns has returned at its first step, and then at the rest.
  pub >>=-eq-ok :
      (step : Result Before) (rest : Before → Result After) {returned : After}
      → (step >>= rest) ≡ ok returned
      → (value : Before) × (step ≡ ok value) × (rest value ≡ ok returned)
  >>=-eq-ok (err raised) rest all = cc
  >>=-eq-ok (ok value) rest all = (value, refl, all)

-- A step that is only a check.
abbrev pub ◌>>◌ {κ} : {After : Type κ} → Result (Unit {0}) → Result After → Result After
check >> rest = check >>= λ _. rest

-- `if not holds: raise raised`
abbrev pub guard : Bool → Error → Result (Unit {0})
guard false raised = err raised
guard true raised = ok tt

module _ {ℓ} {B : Type ℓ} where
  pub guard->>-eq-ok :
      (b : Bool) (e : Error) (k : Result B) {x : B}
      → (guard b e >> k) ≡ ok x
      → (b ≡ true) × (k ≡ ok x)
  guard->>-eq-ok true e k h = (refl, h)
  guard->>-eq-ok false e k h = cc

  pub >>-eq-ok :
      (m : Result (Unit {0})) (k : Result B) {x : B} → (m >> k) ≡ ok x → (m ≡ ok tt) × (k ≡ ok x)
  >>-eq-ok (ok tt) k h = (refl, h)
  >>-eq-ok (err e) k h = cc

pub Result-cases {ℓ} :
    {A : Type ℓ} (r : Result A) → ((a : A) × (r ≡ ok a)) ⊎ ((e : Error) × (r ≡ err e))
Result-cases (ok a) = inl (a, refl)
Result-cases (err e) = inr (e, refl)
