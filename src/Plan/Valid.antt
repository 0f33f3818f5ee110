-- ===== src/Plan/Valid.antt =====
-- What `validate_shape` of execution.py guarantees of a plan that it lets through.
use gpu_control.Base.{
  ◌≡◌, true, Text, pos, int_pos, inl, inr, Result, ok, arith, >>-eq-ok, >>=-eq-ok, sym, String,
  Result-cases, int_eq→eq,
}
use gpu_control.Decimal.{Decimal, is_positive, decimal_eq, decimal_le}
use gpu_control.Value.{Value, text, same_text→eq}
use gpu_control.Host.{Host, DateTime, before}
use gpu_control.Patterns.{is_fingerprint, is_provider_id}
use gpu_control.Validation.{validate_repo, validate_sha, validate_relative_path, validate_profile}
use gpu_control.Plan.{
  ApprovedExecutionPlan, unchanged, worst_case_cost, plan_utc, check_workload, check_identity,
  check_limits, check_window, check_gates, validate_shape,
}

module _ ⦃h : Host⦄ where
  -- The costs of a plan: its worst case is the rounded cost of the runtime at the verified price,
  -- and is within the limit.
  pub record IsPriced (p : ApprovedExecutionPlan) : Type 0 where
    pub one_gpu : p.gpu_count ≡ pos 1
    pub runtime : int_pos p.max_runtime_minutes ≡ true
    pub positive : is_positive p.max_cost_usd ≡ true
    pub price : is_positive p.verified_hourly_price_usd ≡ true
    pub expected : Decimal
    pub computed : worst_case_cost p.verified_hourly_price_usd p.max_runtime_minutes ≡ ok expected
    pub stated : decimal_eq p.worst_case_cost_usd expected ≡ true
    pub within : decimal_le p.worst_case_cost_usd p.max_cost_usd ≡ true

  pub record HasGates (p : ApprovedExecutionPlan) : Type 0 where
    pub source : p.source_verified ≡ true
    pub container : p.container_verified ≡ true
    pub pricing : p.pricing_verified ≡ true
    pub dry_run : p.dry_run_succeeded ≡ true
    pub cleanup : p.cleanup_guaranteed ≡ true
    pub human : p.explicit_human_authorization ≡ true

  check_gates-eq-ok : (p : ApprovedExecutionPlan) → check_gates p ≡ ok tt → HasGates p
  unfolding check_gates
  check_gates-eq-ok p e = ground arith

  check_limits-eq-ok : (p : ApprovedExecutionPlan) → check_limits p ≡ ok tt → IsPriced p
  unfolding check_limits
  check_limits-eq-ok p e =
      elim (Result-cases (worst_case_cost p.verified_hourly_price_usd p.max_runtime_minutes)) [
        | inl (c, computed) ↦ record {
          one_gpu = int_eq→eq p.gpu_count (pos 1) (ground arith);
          runtime = ground arith;
          positive = ground arith;
          price = ground arith;
          expected = c;
          computed = computed;
          stated = ground arith;
          within = ground arith;
        }
        | inr (x, failed) ↦ absurd (ground arith)
      ]

  -- A text field of the plan that its validator accepts and returns unchanged.
  abbrev pub IsCanonicalField : (Value → Result Text) → Value → Type 0
  IsCanonicalField validate v = (s : Text) × (v ≡ text s) × (validate v ≡ ok s)

  unchanged-eq-ok :
      (validate : Value → Result Text) (v : Value) (message : String)
      → unchanged (validate v) v message ≡ ok tt
      → IsCanonicalField validate v
  unfolding unchanged
  unchanged-eq-ok validate v message e = elim (Result-cases (validate v)) [
    | inl (s, accepted) ↦ (s, sym (same_text→eq (text s) v (ground arith)), accepted)
    | inr (x, failed) ↦ absurd (ground arith)
  ]

  pub record IsIdentified (p : ApprovedExecutionPlan) : Type 0 where
    pub version : p.schema_version ≡ pos 1
    pub provider : is_provider_id p.provider ≡ true
    pub repo : IsCanonicalField validate_repo p.target_repo
    pub sha : IsCanonicalField validate_sha p.target_sha
    pub path : IsCanonicalField validate_relative_path p.dockerfile_path
    pub profile : IsCanonicalField validate_profile p.gpu_profile
    pub image : is_fingerprint p.image_digest ≡ true

  check_workload-eq-ok :
      (p : ApprovedExecutionPlan)
      → check_workload p ≡ ok tt
      → IsCanonicalField validate_repo p.target_repo
        × IsCanonicalField validate_sha p.target_sha
        × IsCanonicalField validate_relative_path p.dockerfile_path
        × IsCanonicalField validate_profile p.gpu_profile
  unfolding check_workload
  check_workload-eq-ok p e =
      let (repo, e₁) = >>-eq-ok (unchanged (validate_repo p.target_repo) p.target_repo _) _ e in
      let (sha, e₂) = >>-eq-ok (unchanged (validate_sha p.target_sha) p.target_sha _) _ e₁ in
      let (path, profile) =
        >>-eq-ok (unchanged (validate_relative_path p.dockerfile_path) p.dockerfile_path _) _ e₂ in
      (
        unchanged-eq-ok validate_repo p.target_repo _ repo,
        unchanged-eq-ok validate_sha p.target_sha _ sha,
        unchanged-eq-ok validate_relative_path p.dockerfile_path _ path,
        unchanged-eq-ok validate_profile p.gpu_profile _ profile,
      )

  check_identity-eq-ok : (p : ApprovedExecutionPlan) → check_identity p ≡ ok tt → IsIdentified p
  unfolding check_identity
  check_identity-eq-ok p e =
      let workload : check_workload p ≡ ok tt = ground arith in
      let (repo, sha, path, profile) = check_workload-eq-ok p workload in
      record {
        version = int_eq→eq p.schema_version (pos 1) (ground arith);
        provider = ground arith;
        repo = repo;
        sha = sha;
        path = path;
        profile = profile;
        image = ground arith;
      }

  -- The pricing evidence of the plan covers some time.
  pub record HasWindow (p : ApprovedExecutionPlan) : Type 0 where
    pub verified_at : DateTime
    pub valid_until : DateTime
    pub reads_from : plan_utc p.pricing_verified_at_utc "pricing_verified_at_utc" ≡ ok verified_at
    pub reads_until : plan_utc p.pricing_valid_until_utc "pricing_valid_until_utc" ≡ ok valid_until
    pub nonempty : before verified_at valid_until ≡ true

  check_window-eq-ok : (p : ApprovedExecutionPlan) → check_window p ≡ ok tt → HasWindow p
  unfolding check_window
  check_window-eq-ok p e =
      let (from, reads_from, e₁) =
        >>=-eq-ok (plan_utc p.pricing_verified_at_utc "pricing_verified_at_utc") _ e in
      let (until, reads_until, e₂) =
        >>=-eq-ok (plan_utc p.pricing_valid_until_utc "pricing_valid_until_utc") _ e₁ in
      record {
        verified_at = from;
        valid_until = until;
        reads_from = reads_from;
        reads_until = reads_until;
        nonempty = ground arith;
      }

  -- All that the shape of a plan promises.
  pub record IsApproved (p : ApprovedExecutionPlan) : Type 0 where
    pub identified : IsIdentified p
    pub priced : IsPriced p
    pub window : HasWindow p
    pub gates : HasGates p

  -- A plan that `validate_shape` lets through has canonical identity fields, exactly one GPU, a
  -- worst case that is the rounded cost of its runtime at its price and is within its limit, a
  -- nonempty pricing window, and all six gates.
  pub validate_shape-IsApproved :
      (p : ApprovedExecutionPlan) → validate_shape p ≡ ok tt → IsApproved p
  unfolding validate_shape
  validate_shape-IsApproved p e =
      let (identity, e₁) = >>-eq-ok (check_identity p) _ e in
      let (limits, e₂) = >>-eq-ok (check_limits p) _ e₁ in
      let (window, gates) = >>-eq-ok (check_window p) _ e₂ in
      record {
        identified = check_identity-eq-ok p identity;
        priced = check_limits-eq-ok p limits;
        window = check_window-eq-ok p window;
        gates = check_gates-eq-ok p gates;
      }
