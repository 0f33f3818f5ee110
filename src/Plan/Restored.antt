-- ===== src/Plan/Restored.antt =====
-- A plan survives storage as a dictionary, and a restored plan is the one that was expected.
use gpu_control.Base.{
  ◌≡◌, refl, true, some, pos, int_eq, ok, arith, String, sym, none, Result-cases, inl, inr,
}
use gpu_control.Decimal.{Decimal, is_positive}
use gpu_control.Value.{
  Value, text, object, item, require_exact_keys, as_int, as_flag, as_text, same_text→eq,
}
use gpu_control.Host.{Host}
use gpu_control.Plan.{
  ApprovedExecutionPlan, validate_shape, check_identity, check_limits, to_dict, fingerprint,
  validate_expected_fingerprint,
}
use gpu_control.Plan.Stored.{
  require_plan_keys, plan_version, plan_int, plan_flag, plan_decimal, read_plan, plan_from_dict,
}
use gpu_control.Plan.Valid.{IsApproved, validate_shape-IsApproved}
use gpu_control.Receipt.Restored.{is_plain, DecimalLaws}

module _ ⦃h : Host⦄ where
  require_plan_keys-to_dict : (p : ApprovedExecutionPlan) → require_plan_keys (to_dict p) ≡ ok tt
  unfolding require_plan_keys to_dict require_exact_keys
  require_plan_keys-to_dict p = refl

  validate_shape-facts :
      (p : ApprovedExecutionPlan)
      → validate_shape p ≡ ok tt
      → (int_eq p.schema_version (pos 1) ≡ true)
        × (is_positive p.max_cost_usd ≡ true)
        × (is_positive p.verified_hourly_price_usd ≡ true)
        × (is_positive p.worst_case_cost_usd ≡ true)
  unfolding validate_shape check_identity check_limits
  validate_shape-facts p e = ground arith

  module _ (laws : DecimalLaws h) where
    plan_decimal-format_f :
        (d : Decimal) (field : String)
        → is_plain d ≡ true
        → is_positive d ≡ true
        → plan_decimal (text (h.format_f d)) field ≡ ok d
    unfolding plan_decimal as_text
    plan_decimal-format_f d field plain positive = ground (arith, laws.read_back d, laws.nonblank d)

    read_plan-to_dict :
        (p : ApprovedExecutionPlan)
        → int_eq p.schema_version (pos 1) ≡ true
        → plan_decimal (text (h.format_f p.max_cost_usd)) "max_cost_usd" ≡ ok p.max_cost_usd
        → plan_decimal (text (h.format_f p.verified_hourly_price_usd)) "verified_hourly_price_usd"
          ≡ ok p.verified_hourly_price_usd
        → plan_decimal (text (h.format_f p.worst_case_cost_usd)) "worst_case_cost_usd"
          ≡ ok p.worst_case_cost_usd
        → read_plan (to_dict p) ≡ ok p
    unfolding read_plan to_dict item as_int as_flag plan_version plan_int plan_flag
    read_plan-to_dict p version cost price worst = rw (version, cost, price, worst) refl

    -- A valid plan whose amounts are written digit by digit, stored with `to_dict` and restored with
    -- `from_dict`, is the same plan, where `Decimal` reads back what `format` writes.
    pub plan_from_dict-to_dict :
        (p : ApprovedExecutionPlan)
        → is_plain p.max_cost_usd ≡ true
        → is_plain p.verified_hourly_price_usd ≡ true
        → is_plain p.worst_case_cost_usd ≡ true
        → validate_shape p ≡ ok tt
        → plan_from_dict (object (to_dict p)) none ≡ ok p
    unfolding plan_from_dict
    plan_from_dict-to_dict p c q w e =
        let (version, cost, price, worst) = validate_shape-facts p e in
        let restored =
          read_plan-to_dict p version (plan_decimal-format_f p.max_cost_usd "max_cost_usd" c cost)
            (plan_decimal-format_f p.verified_hourly_price_usd "verified_hourly_price_usd" q price)
            (plan_decimal-format_f p.worst_case_cost_usd "worst_case_cost_usd" w worst) in
        rw (require_plan_keys-to_dict p, restored, e) refl

  -- A plan that is restored under an expected fingerprint is approved and has that fingerprint,
  -- whatever the payload was.
  pub plan_from_dict-IsApproved :
      (v expected : Value) (p : ApprovedExecutionPlan)
      → plan_from_dict v (some expected) ≡ ok p
      → IsApproved p × (expected ≡ text (fingerprint p))
  unfolding plan_from_dict validate_expected_fingerprint
  plan_from_dict-IsApproved (object payload) expected p e =
      elim (Result-cases (read_plan payload)) [
        | inr (x, failed) ↦ absurd (ground arith)
        | inl (q, reads) ↦
            let same : q ≡ p = ground arith in
            (
              validate_shape-IsApproved p (ground arith),
              sym (same_text→eq (text (fingerprint p)) expected (ground arith)),
            )
      ]
  plan_from_dict-IsApproved v expected p e = cc
