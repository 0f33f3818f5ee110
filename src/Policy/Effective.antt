-- ===== src/Policy/Effective.antt =====
-- The effective policy of a request lets that request through when a plan is approved.
use gpu_control.Base.{
  String, >>=-eq-ok, guard->>-eq-ok, policy_error, int_eq, ◌&&◌, Bool-cases, Option-cases, ◌≡◌,
  true, ℤ, pos, some, ok, arith, codes, text_eq, text_eq_refl, int_le, int_pos, Result, inl, inr,
  refl,
}
use gpu_control.Decimal.{Decimal, is_positive, decimal_le, decimal_min}
use gpu_control.Value.{Value, Fields, same_text, get}
use gpu_control.Host.{Host, int_of, decimal_of}
use gpu_control.Validation.{WorkloadRequest}
use gpu_control.Approval.{policy_number, policy_cost, check_policy}
use gpu_control.Policy.{
  mapping, int_min, limit_int, or_zero, or_null, effective_policy, as_decimal,
  validate_against_policy,
}

same_ok : (f g : Fields) → ◌≡◌ {A = Result Fields} (ok f) (ok g) → f ≡ g
same_ok f g e = cc

-- `Decimal(str(d))` is `d` for a finite positive decimal.
pub record StrLaws (h : Host) : Type 0 where
  pub read_back :
      (d : Decimal) → is_positive d ≡ true → h.decimal_of_text (h.decimal_str d) ≡ some d

module _ ⦃h : Host⦄ where
  as_decimal-IsPositive :
      (v : Value) (field : String) (d : Decimal) → as_decimal v field ≡ ok d → is_positive d ≡ true
  unfolding as_decimal
  as_decimal-IsPositive v field d e = elim (Option-cases (decimal_of v)) [
    | inl failed ↦ absurd (ground arith)
    | inr (c, reads) ↦ ground arith
  ]

  min-IsPositive :
      (c d : Decimal)
      → is_positive c ≡ true
      → is_positive d ≡ true
      → is_positive (decimal_min c d) ≡ true
  unfolding decimal_min
  min-IsPositive c d p q = elim (Bool-cases (decimal_le c d)) [
    | inl le ↦ rw le p
    | inr gt ↦ rw gt q
  ]

  check_policy-effective_policy :
      (laws : StrLaws h) (r : WorkloadRequest) (vram runtime : ℤ) (cost : Decimal)
      → int_le r.max_runtime_minutes runtime ≡ true
      → is_positive cost ≡ true
      → decimal_le r.max_cost_usd cost ≡ true
      → check_policy r (effective_policy r vram runtime cost) ≡ ok (pos 1)
  unfolding check_policy effective_policy get text_eq policy_number policy_cost int_of decimal_of
      same_text
  check_policy-effective_policy laws r vram runtime cost short positive cheap =
      rw (text_eq_refl r.gpu_profile, laws.read_back cost positive, short, positive, cheap) refl

  -- A request that `validate_against_policy` lets through has an effective policy, and the approval
  -- of a plan accepts that policy for the request, with one GPU, where `Decimal` reads back what
  -- `str` writes.
  pub check_policy-validate_against_policy :
      (laws : StrLaws h) (r : WorkloadRequest) (policy effective : Fields)
      → validate_against_policy r policy ≡ ok effective
      → check_policy r effective ≡ ok (pos 1)
  unfolding validate_against_policy
  check_policy-validate_against_policy laws r policy effective e =
      let shape = policy_error "policy must define hard_limits and profiles mappings" in
      let (hard, _, e₁) = >>=-eq-ok (mapping (get (codes "hard_limits") policy) shape) _ e in
      let (profiles, _, e₂) = >>=-eq-ok (mapping (get (codes "profiles") policy) shape) _ e₁ in
      let (profile, _, e₃) =
        >>=-eq-ok (mapping (get r.gpu_profile profiles) (policy_error "unknown gpu_profile")) _
          e₂ in
      let (n, _, e₄) = >>=-eq-ok (limit_int (or_zero (get (codes "max_gpu_count") hard))) _ e₃ in
      let (m, _, e₅) = >>=-eq-ok (limit_int (or_zero (get (codes "max_gpu_count") profile))) _ e₄ in
      let (_, e₆) =
        guard->>-eq-ok (int_eq n (pos 1) && int_eq m (pos 1))
          (policy_error "MVP policy requires exactly one allowed GPU") _ e₅ in
      let (t, _, e₇) =
        >>=-eq-ok (limit_int (or_zero (get (codes "max_runtime_minutes") hard))) _ e₆ in
      let (u, _, e₈) =
        >>=-eq-ok (limit_int (or_zero (get (codes "max_runtime_minutes") profile))) _ e₇ in
      let (short, e₉) =
        guard->>-eq-ok (int_le r.max_runtime_minutes (int_min t u))
          (policy_error "requested runtime exceeds policy limit") _ e₈ in
      let (c, reads_c, e₁₀) =
        >>=-eq-ok
          (as_decimal (or_null (get (codes "max_cost_usd") hard)) "hard_limits.max_cost_usd") _
          e₉ in
      let (d, reads_d, e₁₁) =
        >>=-eq-ok (as_decimal (or_null (get (codes "max_cost_usd") profile)) "profile max_cost_usd")
          _ e₁₀ in
      let (cheap, e₁₂) =
        guard->>-eq-ok (decimal_le r.max_cost_usd (decimal_min c d))
          (policy_error "requested cost exceeds policy limit") _ e₁₁ in
      let (vram, _, e₁₃) =
        >>=-eq-ok (limit_int (or_zero (get (codes "min_vram_gb") profile))) _ e₁₂ in
      let (_, same) =
        guard->>-eq-ok (int_pos vram) (policy_error "profile min_vram_gb must be positive") _ e₁₃ in
      let built =
        same_ok (effective_policy r vram (int_min t u) (decimal_min c d)) effective same in
      rw (← built) (
        check_policy-effective_policy laws r vram (int_min t u) (decimal_min c d) short
          (min-IsPositive c d (as_decimal-IsPositive _ _ c reads_c)
            (as_decimal-IsPositive _ _ d reads_d))
          cheap)
