-- ===== src/Plan.antt =====
-- src/gpu_control/execution.py: the approved plan, its shape and its fingerprint. A text field is
-- a `Value`, since a plan restored from JSON stores what the payload holds until it is validated.
pub mod Stored
pub mod Valid
pub mod Restored
use gpu_control.Base.{
  ℕ, String, ◌<>◌, Bool, true, false, ◌&&◌, not, Option, none, some, Text, codes, ◌++◌, ℤ, pos,
  int_eq, int_pos, text_eq, Result, ok, err, Error, validation, policy_error, execution_gate,
  invalid_operation, guard, ◌>>=◌, ◌>>◌, if◌then◌else◌,
}
use gpu_control.Decimal.{Decimal, is_positive, decimal_eq, decimal_le, hours_cost, quantize_ceiling}
use gpu_control.Value.{Value, Fields, text, decimal, int, flag, object, end, entry, same_text}
use gpu_control.Host.{Host, DateTime, before}
use gpu_control.Patterns.{is_fingerprint, is_provider_id}
use gpu_control.Clock.{require_text, read_utc}
use gpu_control.Validation.{
  validate_repo, validate_sha, validate_relative_path, validate_profile, parse_cost, in_cents,
}

pub record ApprovedExecutionPlan : Type 0 where
  pub provider : Value
  pub provider_resource_id : Value
  pub target_repo : Value
  pub target_sha : Value
  pub dockerfile_path : Value
  pub image_digest : Value
  pub container_verification_reference : Value
  pub gpu_profile : Value
  pub gpu_count : ℤ
  pub max_runtime_minutes : ℤ
  pub max_cost_usd : Decimal
  pub verified_hourly_price_usd : Decimal
  pub pricing_verification_reference : Value
  pub pricing_verified_at_utc : Value
  pub pricing_valid_until_utc : Value
  pub worst_case_cost_usd : Decimal
  pub authorization_reference : Value
  pub source_verified : Bool
  pub container_verified : Bool
  pub pricing_verified : Bool
  pub dry_run_succeeded : Bool
  pub cleanup_guaranteed : Bool
  pub explicit_human_authorization : Bool
  pub schema_version : ℤ

-- `except ValidationError as exc: raise ExecutionGateError(str(exc))`
abbrev pub as_gate {ℓ} : {A : Type ℓ} → Result A → Result A
as_gate (ok a) = ok a
as_gate (err (validation m)) = err (execution_gate m)
as_gate (err (policy_error m)) = err (execution_gate m)
as_gate (err e) = err e

-- `if validate(value) != value: raise ExecutionGateError(message)` inside that `try`.
unfoldable pub unchanged : Result Text → Value → String → Result (Unit {0})
unchanged validated v message = do
  s ← as_gate validated
  guard (same_text (text s) v) (execution_gate message)

module _ ⦃h : Host⦄ where
  -- `(hourly * Decimal(minutes) / Decimal(60)).quantize(Decimal("0.01"), ROUND_CEILING)`
  unfoldable pub worst_case_cost : Decimal → ℤ → Result Decimal
  worst_case_cost hourly minutes = in_cents (quantize_ceiling (hours_cost hourly minutes))

  -- `_parse_utc` of execution.py
  unfoldable pub plan_utc : Value → String → Result DateTime
  plan_utc v field = do s ← require_text execution_gate v field 64; read_utc execution_gate s field

  module _ (p : ApprovedExecutionPlan) where
    open p use {
      provider, provider_resource_id, target_repo, target_sha, dockerfile_path, image_digest,
      gpu_profile, container_verification_reference, pricing_verification_reference,
      authorization_reference, gpu_count, max_runtime_minutes, max_cost_usd,
      verified_hourly_price_usd, worst_case_cost_usd, pricing_verified_at_utc,
      pricing_valid_until_utc, source_verified, container_verified, pricing_verified,
      dry_run_succeeded, cleanup_guaranteed, explicit_human_authorization, schema_version,
    }

    -- The four fields that are validated as those of a request.
    unfoldable pub check_workload : Result (Unit {0})
    check_workload = do
      unchanged (validate_repo target_repo) target_repo "target_repo is not canonical"
      unchanged (validate_sha target_sha) target_sha
          "target_sha must be lowercase canonical hexadecimal"
      unchanged (validate_relative_path dockerfile_path) dockerfile_path
          "dockerfile_path is not canonical"
      unchanged (validate_profile gpu_profile) gpu_profile "gpu_profile is not canonical"

    -- From the schema version to the references.
    unfoldable pub check_identity : Result (Unit {0})
    check_identity = do
      guard (int_eq schema_version (pos 1))
          (execution_gate "unsupported approved execution plan schema_version")
      guard (is_provider_id provider)
          (execution_gate "provider must be a lowercase provider identifier")
      _ ← require_text execution_gate provider_resource_id "provider_resource_id" 512
      check_workload
      guard (is_fingerprint image_digest)
          (execution_gate "image_digest must be a lowercase sha256 digest")
      _ ←
          require_text execution_gate container_verification_reference
            "container_verification_reference" 512
      _ ←
          require_text execution_gate pricing_verification_reference
            "pricing_verification_reference" 512
      _ ← require_text execution_gate authorization_reference "authorization_reference" 512
      ok tt

    -- The limits and the costs. A result of `quantize` with too many digits raises an
    -- InvalidOperation that nothing catches.
    unfoldable pub check_limits : Result (Unit {0})
    check_limits = do
      guard (int_eq gpu_count (pos 1))
          (execution_gate "approved execution plan requires exactly one GPU")
      guard (int_pos max_runtime_minutes)
          (execution_gate "max_runtime_minutes must be a positive integer")
      guard (is_positive max_cost_usd)
          (execution_gate "max_cost_usd must be a finite positive Decimal")
      guard (is_positive verified_hourly_price_usd)
          (execution_gate "verified_hourly_price_usd must be a finite positive Decimal")
      guard (is_positive worst_case_cost_usd)
          (execution_gate "worst_case_cost_usd must be a finite positive Decimal")
      cost ← as_gate (parse_cost (decimal max_cost_usd))
      guard (decimal_eq cost max_cost_usd)
          (execution_gate "max_cost_usd must use canonical two-decimal USD precision")
      expected ← worst_case_cost verified_hourly_price_usd max_runtime_minutes
      guard (decimal_eq worst_case_cost_usd expected)
          (execution_gate "worst_case_cost_usd does not match verified price and runtime")
      guard (decimal_le worst_case_cost_usd max_cost_usd)
          (execution_gate "worst_case_cost_usd exceeds max_cost_usd")

    unfoldable pub check_window : Result (Unit {0})
    check_window = do
      verified_at ← plan_utc pricing_verified_at_utc "pricing_verified_at_utc"
      valid_until ← plan_utc pricing_valid_until_utc "pricing_valid_until_utc"
      guard (before verified_at valid_until)
          (execution_gate "pricing_valid_until_utc must be after pricing_verified_at_utc")

    unfoldable pub check_gates : Result (Unit {0})
    check_gates = do
      guard source_verified
          (execution_gate "source_verified must be true in an approved execution plan")
      guard container_verified
          (execution_gate "container_verified must be true in an approved execution plan")
      guard pricing_verified
          (execution_gate "pricing_verified must be true in an approved execution plan")
      guard dry_run_succeeded
          (execution_gate "dry_run_succeeded must be true in an approved execution plan")
      guard cleanup_guaranteed
          (execution_gate "cleanup_guaranteed must be true in an approved execution plan")
      guard explicit_human_authorization
          (execution_gate "explicit_human_authorization must be true in an approved execution plan")

    -- `ApprovedExecutionPlan.validate_shape`
    unfoldable pub validate_shape : Result (Unit {0})
    validate_shape = do check_identity; check_limits; check_window; check_gates

    -- `to_dict`, in the order of the fields.
    unfoldable pub to_dict : Fields
    to_dict = entry (codes "provider") provider (
        entry (codes "provider_resource_id") provider_resource_id (
          entry (codes "target_repo") target_repo (
            entry (codes "target_sha") target_sha (
              entry (codes "dockerfile_path") dockerfile_path (
                entry (codes "image_digest") image_digest (
                  entry (codes "container_verification_reference") container_verification_reference
                    (entry (codes "gpu_profile") gpu_profile (
                      entry (codes "gpu_count") (int gpu_count) (
                        entry (codes "max_runtime_minutes") (int max_runtime_minutes) (
                          entry (codes "max_cost_usd") (text (h.format_f max_cost_usd)) (
                            entry (codes "verified_hourly_price_usd")
                              (text (h.format_f verified_hourly_price_usd))
                              (entry (codes "pricing_verification_reference")
                                pricing_verification_reference
                                (entry (codes "pricing_verified_at_utc") pricing_verified_at_utc (
                                  entry (codes "pricing_valid_until_utc") pricing_valid_until_utc (
                                    entry (codes "worst_case_cost_usd")
                                      (text (h.format_f worst_case_cost_usd))
                                      (entry (codes "authorization_reference")
                                        authorization_reference
                                        (entry (codes "source_verified") (flag source_verified) (
                                          entry (codes "container_verified")
                                            (flag container_verified)
                                            (entry (codes "pricing_verified")
                                              (flag pricing_verified)
                                              (entry (codes "dry_run_succeeded")
                                                (flag dry_run_succeeded)
                                                (entry (codes "cleanup_guaranteed")
                                                  (flag cleanup_guaranteed)
                                                  (entry (codes "explicit_human_authorization")
                                                    (flag explicit_human_authorization)
                                                    (entry (codes "schema_version")
                                                      (int schema_version)
                                                      end)))))))))))))))))))))))

    -- `fingerprint`, over `canonical_json`
    unfoldable pub fingerprint : Text
    fingerprint = codes "sha256:" ++ h.sha256_hex (h.json_dumps (object to_dict))

    unfoldable pub validate_expected_fingerprint : Value → Result (Unit {0})
    validate_expected_fingerprint expected = do
      guard (is_fingerprint expected)
          (execution_gate "expected plan fingerprint must be a lowercase sha256 fingerprint")
      guard (same_text (text fingerprint) expected)
          (execution_gate "approved execution plan fingerprint does not match expected fingerprint")
