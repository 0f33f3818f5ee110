-- ===== src/Approval/Gates.antt =====
-- What an approved plan rests on: each gate of `build_approved_execution_plan` was passed.
use mathlib.Core.Path.{subst}
use gpu_control.Base.{
  ◌≡◌, true, Option, codes, text_eq→eq, ℤ, pos, int_eq→eq, ok, arith, Result-cases, inl, inr, ◌≤ℤ◌,
  int_le→≤ℤ,
}
use gpu_control.Decimal.{Decimal, decimal_le}
use gpu_control.Value.{Fields, text, null, get, same_text}
use gpu_control.Host.{Host, DateTime, before, not_after}
use gpu_control.Validation.{WorkloadRequest}
use gpu_control.Evidence.{
  SourceVerificationResult, ContainerVerificationResult, PricingVerificationResult,
  validate_pricing,
}
use gpu_control.Plan.{ApprovedExecutionPlan, worst_case_cost, validate_shape}
use gpu_control.Approval.{
  validate_source_identity, validate_container_evidence, validate_decision_time, Approval,
  check_approval, get_or, validate_pricing_evidence, policy_number, policy_cost, check_policy,
  assemble, build_approved_execution_plan,
}

-- The source was found as requested, and the container was built from it and passed all checks.
pub record IsVerified (r : WorkloadRequest) (s : SourceVerificationResult)
    (c : ContainerVerificationResult) : Type 0 where
  pub repository_public : s.repository_public ≡ true
  pub commit_verified : s.commit_verified ≡ true
  pub dockerfile_verified : s.dockerfile_verified ≡ true
  pub source_repository : s.repository ≡ r.target_repo
  pub source_commit : s.commit_sha ≡ r.target_sha
  pub source_dockerfile : s.dockerfile_path ≡ r.dockerfile_path
  pub container_repository : c.repository ≡ r.target_repo
  pub container_commit : c.commit_sha ≡ r.target_sha
  pub container_dockerfile : c.dockerfile_path ≡ r.dockerfile_path
  pub build_isolated : c.build_isolated ≡ true
  pub runtime_isolated : c.runtime_isolated ≡ true
  pub smoke_test_passed : c.smoke_test_passed ≡ true
  pub output_contract_verified : c.output_contract_verified ≡ true
  pub credentials_absent : c.credentials_absent ≡ true
  pub network_policy_enforced : c.network_policy_enforced ≡ true
  pub resource_limits_enforced : c.resource_limits_enforced ≡ true

evidence-IsVerified :
    (r : WorkloadRequest) (s : SourceVerificationResult) (c : ContainerVerificationResult)
    → validate_source_identity r s ≡ ok tt
    → validate_container_evidence r s c ≡ ok tt
    → IsVerified r s c
unfolding validate_source_identity validate_container_evidence
evidence-IsVerified r s c source container = record {
  repository_public = ground arith;
  commit_verified = ground arith;
  dockerfile_verified = ground arith;
  source_repository = text_eq→eq s.repository r.target_repo (ground arith);
  source_commit = text_eq→eq s.commit_sha r.target_sha (ground arith);
  source_dockerfile = text_eq→eq s.dockerfile_path r.dockerfile_path (ground arith);
  container_repository = text_eq→eq c.repository r.target_repo (ground arith);
  container_commit = text_eq→eq c.commit_sha r.target_sha (ground arith);
  container_dockerfile = text_eq→eq c.dockerfile_path r.dockerfile_path (ground arith);
  build_isolated = ground arith;
  runtime_isolated = ground arith;
  smoke_test_passed = ground arith;
  output_contract_verified = ground arith;
  credentials_absent = ground arith;
  network_policy_enforced = ground arith;
  resource_limits_enforced = ground arith;
}

module _ ⦃h : Host⦄ where
  -- The price was verified for the requested profile, and the decision falls in its window.
  pub record IsCurrent (r : WorkloadRequest) (p : PricingVerificationResult) (now : DateTime)
      (value : Option DateTime) : Type 0 where
    pub window : DateTime × DateTime
    pub time : DateTime
    pub reads : validate_pricing p ≡ ok window
    pub decided : validate_decision_time now value ≡ ok time
    pub profile : p.gpu_profile ≡ r.gpu_profile
    pub verified : p.price_verified ≡ true
    pub available : p.availability_verified ≡ true
    pub not_early : not_after window.0 time ≡ true
    pub not_late : before time window.1 ≡ true

  validate_pricing_evidence-IsCurrent :
      (r : WorkloadRequest) (p : PricingVerificationResult) (now : DateTime)
      (value : Option DateTime) {d : Decimal}
      → validate_pricing_evidence r p now value ≡ ok d
      → IsCurrent r p now value × (d ≡ p.hourly_price_usd)
  unfolding validate_pricing_evidence
  validate_pricing_evidence-IsCurrent r p now value {d} e =
      elim (Result-cases (validate_pricing p)) [
        | inr (x, failed) ↦ absurd (ground arith)
        | inl (w, reads) ↦ elim (Result-cases (validate_decision_time now value)) [
          | inr (x, failed) ↦ absurd (ground arith)
          | inl (t, decided) ↦ (
            record {
              window = w;
              time = t;
              reads = reads;
              decided = decided;
              profile = text_eq→eq p.gpu_profile r.gpu_profile (ground arith);
              verified = ground arith;
              available = ground arith;
              not_early = ground arith;
              not_late = ground arith;
            },
            ground arith,
          )
        ]
      ]

  -- The request asks for no more than the policy allows, for its own profile and one GPU.
  pub record IsAllowed (r : WorkloadRequest) (policy : Fields) : Type 0 where
    pub allowed_runtime : ℤ
    pub allowed_cost : Decimal
    pub profile : same_text (get_or null (get (codes "profile") policy)) (text r.gpu_profile) ≡ true
    pub one_gpu : policy_number (get (codes "gpu_count") policy) ≡ ok (pos 1)
    pub reads_runtime :
        policy_number (get (codes "max_runtime_minutes") policy) ≡ ok allowed_runtime
    pub reads_cost : policy_cost (get (codes "max_cost_usd") policy) ≡ ok allowed_cost
    pub runtime : r.max_runtime_minutes ≤ℤ allowed_runtime
    pub cost : decimal_le r.max_cost_usd allowed_cost ≡ true

  check_policy-IsAllowed :
      (r : WorkloadRequest) (policy : Fields) (n : ℤ)
      → check_policy r policy ≡ ok n
      → IsAllowed r policy × (n ≡ pos 1)
  unfolding check_policy
  check_policy-IsAllowed r policy n e =
      elim (Result-cases (policy_number (get (codes "gpu_count") policy))) [
        | inr (x, failed) ↦ absurd (ground arith)
        | inl (count, reads_count) ↦
            elim (Result-cases (policy_number (get (codes "max_runtime_minutes") policy))) [
              | inr (x, failed) ↦ absurd (ground arith)
              | inl (runtime, reads_runtime) ↦
                  elim (Result-cases (policy_cost (get (codes "max_cost_usd") policy))) [
                    | inr (x, failed) ↦ absurd (ground arith)
                    | inl (cost, reads_cost) ↦ (
                      record {
                        allowed_runtime = runtime;
                        allowed_cost = cost;
                        profile = ground arith;
                        one_gpu = ground (arith, int_eq→eq count (pos 1));
                        reads_runtime = reads_runtime;
                        reads_cost = reads_cost;
                        runtime = int_le→≤ℤ r.max_runtime_minutes runtime (ground arith);
                        cost = ground arith;
                      },
                      ground (arith, int_eq→eq count (pos 1)),
                    )
                  ]
            ]
      ]

  module _ (r : WorkloadRequest) (policy : Fields) (s : SourceVerificationResult)
      (c : ContainerVerificationResult) (p : PricingVerificationResult) (a : Approval)
      (now : DateTime) (value : Option DateTime) where
    -- What stands behind a plan.
    pub record IsBacked (plan : ApprovedExecutionPlan) : Type 0 where
      pub verified : IsVerified r s c
      pub current : IsCurrent r p now value
      pub allowed : IsAllowed r policy
      pub dry_run : a.dry_run_succeeded ≡ true
      pub cleanup : a.cleanup_guaranteed ≡ true
      pub human : a.explicit_human_authorization ≡ true
      pub worst_case : Decimal
      pub computed : worst_case_cost p.hourly_price_usd r.max_runtime_minutes ≡ ok worst_case
      pub within : decimal_le worst_case r.max_cost_usd ≡ true
      pub assembled : plan ≡ assemble r c p a (pos 1) p.hourly_price_usd worst_case
      pub shape : validate_shape plan ≡ ok tt

    -- A plan is built only if the source and container evidence is complete and about this
    -- request, the pricing evidence is verified and current at the decision, the caller gave all
    -- three approvals, and the request is within the effective policy. The plan is then made of
    -- that evidence, has the worst case cost of the verified price, which is within the limit of
    -- the request, and passes its own validation.
    pub build_approved_execution_plan-IsBacked :
        (plan : ApprovedExecutionPlan)
        → build_approved_execution_plan r policy s c p a now value ≡ ok plan
        → IsBacked plan
    unfolding build_approved_execution_plan check_approval
    build_approved_execution_plan-IsBacked plan e =
        elim (Result-cases (validate_pricing_evidence r p now value)) [
          | inr (x, failed) ↦ absurd (ground arith)
          | inl (price, priced) ↦ elim (Result-cases (check_policy r policy)) [
            | inr (x, failed) ↦ absurd (ground arith)
            | inl (count, counted) ↦
                elim (Result-cases (worst_case_cost price r.max_runtime_minutes)) [
                  | inr (x, failed) ↦ absurd (ground arith)
                  | inl (worst, computed) ↦
                      let (current, same_price) =
                        validate_pricing_evidence-IsCurrent r p now value priced in
                      let (allowed, one) = check_policy-IsAllowed r policy count counted in
                      record {
                        verified = evidence-IsVerified r s c (ground arith) (ground arith);
                        current = current;
                        allowed = allowed;
                        dry_run = ground arith;
                        cleanup = ground arith;
                        human = ground arith;
                        worst_case = worst;
                        computed =
                            subst (λ d. worst_case_cost d r.max_runtime_minutes ≡ ok worst)
                              same_price computed;
                        within = ground arith;
                        assembled = ground arith;
                        shape = ground arith;
                      }
                ]
          ]
        ]
