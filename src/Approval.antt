-- ===== src/Approval.antt =====
-- src/gpu_control/execution.py, from `_validate_source_identity` on: the gate that turns a request
-- and its evidence into an approved plan.
pub mod Gates
use gpu_control.Base.{
  ℕ, Bool, true, false, ◌&&◌, ◌||◌, not, Option, none, some, Text, codes, strip, text_eq, ℤ, pos,
  int_eq, int_le, Result, ok, err, Error, value_error, pricing_error, execution_gate, guard, ◌>>=◌,
  ◌>>◌, if◌then◌else◌,
}
use gpu_control.Decimal.{Decimal, is_positive, decimal_le}
use gpu_control.Value.{Value, Fields, text, int, null, get, same_text}
use gpu_control.Host.{Host, DateTime, is_utc, before, not_after, int_of, decimal_of}
use gpu_control.Validation.{WorkloadRequest}
use gpu_control.Evidence.{
  SourceVerificationResult, ContainerVerificationResult, PricingVerificationResult, has_text,
  validate_container, validate_pricing,
}
use gpu_control.Plan.{ApprovedExecutionPlan, worst_case_cost, validate_shape}

unfoldable pub validate_source_identity :
    WorkloadRequest → SourceVerificationResult → Result (Unit {0})
validate_source_identity r s = do
  guard (s.repository_public && s.commit_verified && s.dockerfile_verified)
      (execution_gate "source verification is incomplete")
  guard (text_eq s.repository r.target_repo)
      (execution_gate "verified repository does not match the workload request")
  guard (text_eq s.commit_sha r.target_sha)
      (execution_gate "verified commit does not match the workload request")
  guard (text_eq s.dockerfile_path r.dockerfile_path)
      (execution_gate "verified Dockerfile does not match the workload request")

-- `except ValueError` around `container.validate_shape()`
abbrev pub container_gate : Result (Unit {0}) → Result (Unit {0})
container_gate (err (value_error m)) = err (execution_gate m)
container_gate (err e) = err e
container_gate (ok u) = ok u

-- The loop over `checks`.
unfoldable pub container_checks : ContainerVerificationResult → Result (Unit {0})
container_checks c = do
  guard c.build_isolated (execution_gate "isolated container build must pass before paid compute")
  guard c.runtime_isolated
      (execution_gate "isolated container runtime must pass before paid compute")
  guard c.smoke_test_passed (execution_gate "container smoke test must pass before paid compute")
  guard c.output_contract_verified
      (execution_gate "container output contract must pass before paid compute")
  guard c.credentials_absent
      (execution_gate "container credential isolation must pass before paid compute")
  guard c.network_policy_enforced
      (execution_gate "container network policy must pass before paid compute")
  guard c.resource_limits_enforced
      (execution_gate "container resource limits must pass before paid compute")

unfoldable pub validate_container_evidence :
    WorkloadRequest → SourceVerificationResult → ContainerVerificationResult → Result (Unit {0})
unfolding container_checks
validate_container_evidence r s c = do
  container_gate (validate_container c)
  guard (text_eq c.repository r.target_repo && text_eq c.repository s.repository)
      (execution_gate "container repository identity does not match verified source")
  guard (text_eq c.commit_sha r.target_sha && text_eq c.commit_sha s.commit_sha)
      (execution_gate "container commit identity does not match verified source")
  guard (text_eq c.dockerfile_path r.dockerfile_path && text_eq c.dockerfile_path s.dockerfile_path)
      (execution_gate "container Dockerfile identity does not match verified source")
  container_checks c

-- `value or datetime.now(timezone.utc)`, where `now` is the reading of the clock.
unfoldable pub validate_decision_time : DateTime → Option DateTime → Result DateTime
validate_decision_time now value =
    let time : DateTime = elim value [ none ↦ now | some t ↦ t ] in
    if is_utc time
    then ok time
    else err (execution_gate "decision_time_utc must be timezone-aware UTC")

-- `except PricingVerificationError` around `pricing.validate_shape()`
abbrev pub pricing_gate {ℓ} : {A : Type ℓ} → Result A → Result A
pricing_gate (err (pricing_error m)) = err (execution_gate m)
pricing_gate (err e) = err e
pricing_gate (ok a) = ok a

-- The four flags and the reference that the caller of the gate supplies.
pub record Approval : Type 0 where
  pub dry_run_succeeded : Bool
  pub cleanup_guaranteed : Bool
  pub explicit_human_authorization : Bool
  pub authorization_reference : Text

unfoldable pub check_approval : Approval → Result (Unit {0})
check_approval a = do
  guard a.dry_run_succeeded (execution_gate "a successful dry-run is required before paid compute")
  guard a.cleanup_guaranteed
      (execution_gate "provider cleanup must be guaranteed before paid compute")
  guard a.explicit_human_authorization
      (execution_gate "explicit human authorization is required for paid compute")
  guard (has_text a.authorization_reference)
      (execution_gate "authorization_reference is required for paid compute")

-- `policy.get(key, default)`
abbrev pub get_or : Value → Option Value → Value
get_or default none = default
get_or default (some v) = v

module _ ⦃h : Host⦄ where
  unfoldable pub validate_pricing_evidence :
      WorkloadRequest → PricingVerificationResult → DateTime → Option DateTime → Result Decimal
  validate_pricing_evidence r p now decision_time_utc = do
    window ← pricing_gate (validate_pricing p)
    guard (has_text p.provider) (execution_gate "pricing provider is required")
    guard (text_eq p.gpu_profile r.gpu_profile)
        (execution_gate "pricing gpu_profile does not match the workload request")
    guard p.price_verified
        (execution_gate "provider price verification must pass before paid compute")
    guard p.availability_verified
        (execution_gate "provider resource availability must be verified before paid compute")
    time ← validate_decision_time now decision_time_utc
    guard (not_after window.0 time)
        (execution_gate "pricing evidence cannot be newer than the approval decision")
    guard (before time window.1)
        (execution_gate "pricing evidence expired before the approval decision")
    ok p.hourly_price_usd

  -- `int(effective_policy.get(key, 0))`
  unfoldable pub policy_number : Option Value → Result ℤ
  policy_number v = elim (int_of (get_or (int (pos 0)) v)) [
    | none ↦ err (execution_gate "effective policy contains invalid numeric limits")
    | some n ↦ ok n
  ]

  -- `Decimal(str(effective_policy.get("max_cost_usd")))`
  unfoldable pub policy_cost : Option Value → Result Decimal
  policy_cost v = elim (decimal_of (get_or null v)) [
    | none ↦ err (execution_gate "effective policy max_cost_usd must be a decimal number")
    | some d ↦ ok d
  ]

  -- The tests of the request against `effective_policy`; the result is `gpu_count`.
  unfoldable pub check_policy : WorkloadRequest → Fields → Result ℤ
  check_policy r policy = do
    guard (same_text (get_or null (get (codes "profile") policy)) (text r.gpu_profile))
        (execution_gate "effective policy profile does not match the request")
    gpu_count ← policy_number (get (codes "gpu_count") policy)
    allowed_runtime ← policy_number (get (codes "max_runtime_minutes") policy)
    guard (int_eq gpu_count (pos 1)) (execution_gate "paid MVP requires exactly one GPU")
    guard (int_le r.max_runtime_minutes allowed_runtime)
        (execution_gate "requested runtime exceeds the effective policy")
    allowed_cost ← policy_cost (get (codes "max_cost_usd") policy)
    guard (is_positive allowed_cost)
        (execution_gate "effective policy max_cost_usd must be finite and positive")
    guard (decimal_le r.max_cost_usd allowed_cost)
        (execution_gate "requested cost exceeds the effective policy")
    ok gpu_count

  -- The fields of the plan, from the request and the evidence.
  unfoldable pub assemble :
      WorkloadRequest
      → ContainerVerificationResult
      → PricingVerificationResult
      → Approval
      → ℤ
      → Decimal
      → Decimal
      → ApprovedExecutionPlan
  assemble r c p a gpu_count hourly_price worst_case = record {
    provider = text (strip p.provider);
    provider_resource_id = text (strip p.provider_resource_id);
    target_repo = text r.target_repo;
    target_sha = text r.target_sha;
    dockerfile_path = text r.dockerfile_path;
    image_digest = text c.image_digest;
    container_verification_reference = text (strip c.verification_reference);
    gpu_profile = text r.gpu_profile;
    gpu_count = gpu_count;
    max_runtime_minutes = r.max_runtime_minutes;
    max_cost_usd = r.max_cost_usd;
    verified_hourly_price_usd = hourly_price;
    pricing_verification_reference = text (strip p.verification_reference);
    pricing_verified_at_utc = text (strip p.verified_at_utc);
    pricing_valid_until_utc = text (strip p.valid_until_utc);
    worst_case_cost_usd = worst_case;
    authorization_reference = text (strip a.authorization_reference);
    source_verified = true;
    container_verified = true;
    pricing_verified = true;
    dry_run_succeeded = true;
    cleanup_guaranteed = true;
    explicit_human_authorization = true;
    schema_version = pos 1;
  }

  unfoldable pub build_approved_execution_plan :
      WorkloadRequest
      → Fields
      → SourceVerificationResult
      → ContainerVerificationResult
      → PricingVerificationResult
      → Approval
      → DateTime
      → Option DateTime
      → Result ApprovedExecutionPlan
  build_approved_execution_plan r policy s c p a now decision_time_utc = do
    validate_source_identity r s
    validate_container_evidence r s c
    hourly_price ← validate_pricing_evidence r p now decision_time_utc
    check_approval a
    gpu_count ← check_policy r policy
    worst_case ← worst_case_cost hourly_price r.max_runtime_minutes
    guard (decimal_le worst_case r.max_cost_usd)
        (execution_gate "worst-case provider cost exceeds requested limit")
    let plan = assemble r c p a gpu_count hourly_price worst_case
    validate_shape plan
    ok plan
