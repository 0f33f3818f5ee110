-- ===== src/Examples/Data.antt =====
-- A request, its evidence, the plan that the gate makes of it, and a run of that plan with the
-- synthetic adapter.
use gpu_control.Base.{
  ℕ, ◌≡◌, refl, true, some, ◌++◌, Text, codes, pos, negsuc, ok, text_eq, strip, is_space, split,
  has_char, all_in, after_prefix, before_suffix, lstrip,
}
use gpu_control.Decimal.{
  finite, decimal_eq, decimal_le, hours_cost, quantize_ceiling, quantize_cents, finer_than_cents,
  round_context,
}
use gpu_control.Value.{
  Fields, text, int, entry, end, is_nonblank, same_text, get, item, as_int, as_flag, member, subset,
  keys, require_exact_keys,
}
use gpu_control.Host.{DateTime, is_utc, int_of, decimal_of}
use gpu_control.Patterns.{
  is_fingerprint, is_sha256_text, is_provider_id, is_provider_text, is_repo_text, is_sha_text,
  is_profile_text, head_then, after_slash,
}
use gpu_control.Clock.{restore_zone, has_control, read_utc, parse_utc, format_utc, require_text}
use gpu_control.Validation.{
  WorkloadRequest, validate_repo, validate_sha, validate_relative_path, validate_profile,
  parse_cost, parse_runtime, is_falsy, build_request,
}
use gpu_control.Plan.{
  ApprovedExecutionPlan, unchanged, worst_case_cost, plan_utc, check_workload, check_identity,
  check_limits, check_window, check_gates, validate_shape, to_dict, fingerprint,
  validate_expected_fingerprint,
}
use gpu_control.Evidence.{
  SourceVerificationResult, ContainerVerificationResult, PricingVerificationResult,
  validate_container, validate_pricing,
}
use gpu_control.Approval.{
  Approval, validate_source_identity, validate_container_evidence, validate_pricing_evidence,
  validate_decision_time, check_approval, policy_number, policy_cost, check_policy, assemble,
  build_approved_execution_plan,
}
use gpu_control.Examples.World.{world, stamp, shown, sixty_four}

-- All functions that the runs below compute with.
unfoldable pub opened : ℕ
unfolding world text_eq strip is_space split has_char all_in after_prefix before_suffix lstrip
    decimal_eq decimal_le hours_cost quantize_ceiling quantize_cents finer_than_cents round_context
    is_nonblank same_text get item as_int as_flag member subset keys require_exact_keys is_utc
    int_of decimal_of is_fingerprint is_sha256_text is_provider_id is_provider_text is_repo_text
    is_sha_text is_profile_text head_then after_slash restore_zone has_control read_utc parse_utc
    format_utc require_text validate_repo validate_sha validate_relative_path validate_profile
    parse_cost parse_runtime is_falsy build_request unchanged worst_case_cost plan_utc
    check_workload check_identity check_limits check_window check_gates validate_shape to_dict
    fingerprint validate_expected_fingerprint validate_container validate_pricing
    validate_source_identity validate_container_evidence validate_pricing_evidence
    validate_decision_time check_approval policy_number policy_cost check_policy assemble
    build_approved_execution_plan
opened = 0

abbrev pub at : ℕ → DateTime
at n = record { instant = n; offset = some (pos 0) }

abbrev pub sha : Text
sha = codes "38594057d1b118a7acf6c843e39d7d8a25571316"

abbrev pub digest : Text
digest = codes "sha256:" ++ sixty_four b'b'

-- 30 minutes at 0.50 an hour are 0.25, and the limit is 0.30.
abbrev pub request : WorkloadRequest
request = record {
  target_repo = codes "Unjuno/orbitune";
  target_sha = sha;
  dockerfile_path = codes "workloads/runpod-training-canary/Dockerfile";
  gpu_profile = codes "cheap-24gb";
  max_runtime_minutes = pos 30;
  max_cost_usd = finite (pos 30) (negsuc 1);
}

abbrev pub source : SourceVerificationResult
source = record {
  repository = codes "Unjuno/orbitune";
  commit_sha = sha;
  dockerfile_path = codes "workloads/runpod-training-canary/Dockerfile";
  repository_public = true;
  commit_verified = true;
  dockerfile_verified = true;
}

abbrev pub container : ContainerVerificationResult
container = record {
  repository = codes "Unjuno/orbitune";
  commit_sha = sha;
  dockerfile_path = codes "workloads/runpod-training-canary/Dockerfile";
  image_digest = digest;
  verification_reference = codes "ci:1";
  build_isolated = true;
  runtime_isolated = true;
  smoke_test_passed = true;
  output_contract_verified = true;
  credentials_absent = true;
  network_policy_enforced = true;
  resource_limits_enforced = true;
}

abbrev pub pricing : PricingVerificationResult
pricing = record {
  provider = codes "synthetic";
  gpu_profile = codes "cheap-24gb";
  provider_resource_id = codes "rtx-4090";
  hourly_price_usd = finite (pos 50) (negsuc 1);
  verification_reference = codes "price:1";
  verified_at_utc = stamp 100;
  valid_until_utc = stamp 200;
  price_verified = true;
  availability_verified = true;
}

abbrev pub approval : Approval
approval = record {
  dry_run_succeeded = true;
  cleanup_guaranteed = true;
  explicit_human_authorization = true;
  authorization_reference = codes "issue:7";
}

abbrev pub effective : Fields
effective = entry (codes "profile") (text (codes "cheap-24gb")) (
    entry (codes "gpu_count") (int (pos 1)) (
      entry (codes "max_runtime_minutes") (int (pos 60))
        (entry (codes "max_cost_usd") (text (shown (finite (pos 50) (negsuc 1)))) end)))

abbrev pub plan : ApprovedExecutionPlan
plan = record {
  provider = text (codes "synthetic");
  provider_resource_id = text (codes "rtx-4090");
  target_repo = text (codes "Unjuno/orbitune");
  target_sha = text sha;
  dockerfile_path = text (codes "workloads/runpod-training-canary/Dockerfile");
  image_digest = text digest;
  container_verification_reference = text (codes "ci:1");
  gpu_profile = text (codes "cheap-24gb");
  gpu_count = pos 1;
  max_runtime_minutes = pos 30;
  max_cost_usd = finite (pos 30) (negsuc 1);
  verified_hourly_price_usd = finite (pos 50) (negsuc 1);
  pricing_verification_reference = text (codes "price:1");
  pricing_verified_at_utc = text (stamp 100);
  pricing_valid_until_utc = text (stamp 200);
  worst_case_cost_usd = finite (pos 25) (negsuc 1);
  authorization_reference = text (codes "issue:7");
  source_verified = true;
  container_verified = true;
  pricing_verified = true;
  dry_run_succeeded = true;
  cleanup_guaranteed = true;
  explicit_human_authorization = true;
  schema_version = pos 1;
}

pub plan_valid : validate_shape plan ≡ ok tt
unfolding opened
plan_valid = refl

pub plan_built :
    build_approved_execution_plan request effective source container pricing approval
      (at 0)
      (some (at 150))
    ≡ ok plan
unfolding opened
plan_built = refl
