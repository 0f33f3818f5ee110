-- ===== src/Controller/Calls.antt =====
-- How the controller calls an adapter: once, and only behind its own tests.
use gpu_control.Base.{◌≡◌, inl, inr, Result, ok, err, Error, Result-cases, arith}
use gpu_control.Adapter.{Call}
use gpu_control.Controller.{call_between}

module _ {S A B C : Type 0} (before : Result A) (call : Call S B) (after : A → B → Result C)
    (s : S) where
  -- Where the tests before the call fail, the provider is left alone.
  pub call_between-refused :
      (e : Error) → before ≡ err e → call_between before call after s ≡ (err e, s)
  unfolding call_between
  call_between-refused e h = ground arith

  -- Where they pass, the provider is in the state in which the one call leaves it.
  pub call_between-called :
      (a : A) → before ≡ ok a → (call_between before call after s).1 ≡ (call s).1
  unfolding call_between
  call_between-called a h = ground arith

  -- A result comes from the answer of the call.
  pub call_between-eq-ok :
      (c : C)
      → (call_between before call after s).0 ≡ ok c
      → (a : A) × (b : B) × (before ≡ ok a) × ((call s).0 ≡ ok b) × (after a b ≡ ok c)
  unfolding call_between
  call_between-eq-ok c h = elim (Result-cases before) [
    | inr (x, failed) ↦ absurd (ground arith)
    | inl (a, passed) ↦ elim (Result-cases (call s).0) [
      | inr (x, failed) ↦ absurd (ground arith)
      | inl (b, answered) ↦ (a, b, passed, answered, ground arith)
    ]
  ]
