-- ===== src/Receipt.antt =====
-- src/gpu_control/lifecycle.py: the submission receipt.
pub mod Restored
use gpu_control.Base.{
  ℕ, String, Bool, true, false, ◌&&◌, not, Option, none, some, List, [], ◌∷◌, ◌++◌, Text, codes,
  strip, ℤ, pos, int_eq, int_pos, Result, ok, err, Error, lifecycle, guard, ◌>>=◌, ◌>>◌,
  if◌then◌else◌,
}
use gpu_control.Decimal.{Decimal, is_positive, decimal_eq}
use gpu_control.Value.{
  Value, Fields, null, text, int, object, end, entry, is_nonblank, as_int, as_text, same_text, item,
  require_exact_keys,
}
use gpu_control.Host.{Host, DateTime, is_utc, before, not_after}
use gpu_control.Patterns.{is_fingerprint}
use gpu_control.Clock.{parse_utc, format_utc}
use gpu_control.Plan.{ApprovedExecutionPlan, fingerprint}

pub record SubmissionReceipt : Type 0 where
  pub provider : Value
  pub provider_resource_id : Value
  pub provider_job_id : Value
  pub plan_fingerprint : Value
  pub submitted_at_utc : Value
  pub max_runtime_minutes : ℤ
  pub max_cost_usd : Decimal
  pub image_digest : Value
  pub schema_version : ℤ

-- `_validate_identity`
unfoldable pub validate_identity : Value → Value → Value → Result (Unit {0})
validate_identity provider provider_job_id plan_fingerprint = do
  guard (is_nonblank provider) (lifecycle "provider is required")
  guard (is_nonblank provider_job_id) (lifecycle "provider_job_id is required")
  guard (is_fingerprint plan_fingerprint)
      (lifecycle "plan_fingerprint must be a lowercase sha256 fingerprint")

-- `_parse_schema_version`
unfoldable pub parse_schema_version : Value → String → Result ℤ
parse_schema_version v label = elim (as_int v) [
  | none ↦ err (lifecycle "schema_version must be an integer")
  | some n ↦ if int_eq n (pos 1) then ok n else err (lifecycle "unsupported schema_version")
]

module _ ⦃h : Host⦄ where
  -- `SubmissionReceipt.validate_shape`
  unfoldable pub validate_receipt : SubmissionReceipt → Result DateTime
  unfolding validate_identity
  validate_receipt r = do
    guard (int_eq r.schema_version (pos 1))
        (lifecycle "unsupported submission receipt schema_version")
    validate_identity r.provider r.provider_job_id r.plan_fingerprint
    guard (is_nonblank r.provider_resource_id) (lifecycle "provider_resource_id is required")
    guard (int_pos r.max_runtime_minutes)
        (lifecycle "max_runtime_minutes must be a positive integer")
    guard (is_positive r.max_cost_usd) (lifecycle "max_cost_usd must be a finite positive Decimal")
    guard (is_fingerprint r.image_digest)
        (lifecycle "image_digest must be a lowercase sha256 digest")
    parse_utc lifecycle r.submitted_at_utc "submitted_at_utc"

  -- `SubmissionReceipt.to_dict`
  unfoldable pub receipt_to_dict : SubmissionReceipt → Fields
  receipt_to_dict r = entry (codes "provider") r.provider (
      entry (codes "provider_resource_id") r.provider_resource_id (
        entry (codes "provider_job_id") r.provider_job_id (
          entry (codes "plan_fingerprint") r.plan_fingerprint (
            entry (codes "submitted_at_utc") r.submitted_at_utc (
              entry (codes "max_runtime_minutes") (int r.max_runtime_minutes) (
                entry (codes "max_cost_usd") (text (h.format_f r.max_cost_usd)) (
                  entry (codes "image_digest") r.image_digest
                    (entry (codes "schema_version") (int r.schema_version) end))))))))

  unfoldable pub receipt_fingerprint : SubmissionReceipt → Text
  receipt_fingerprint r =
      codes "sha256:" ++ h.sha256_hex (h.json_dumps (object (receipt_to_dict r)))

  decimal_of_nonblank : Value → String → Result Decimal
  decimal_of_nonblank (text s) field = elim (h.decimal_of_text s) [
    | none ↦ err (lifecycle "max_cost_usd must be a decimal string")
    | some d ↦
        if is_positive d then ok d else err (lifecycle "max_cost_usd must be finite and positive")
  ]
  decimal_of_nonblank v field = err (lifecycle "max_cost_usd must be a decimal string")

  -- `_parse_decimal_string` of lifecycle.py, which only the cost is read with.
  unfoldable pub parse_decimal_string : Value → String → Result Decimal
  unfolding decimal_of_nonblank
  parse_decimal_string v field = do
    guard (is_nonblank v) (lifecycle "max_cost_usd must be a decimal string")
    decimal_of_nonblank v field

  abbrev receipt_keys : List Text
  receipt_keys =
      codes "provider"
      ∷ codes "provider_resource_id"
      ∷ codes "provider_job_id"
      ∷ codes "plan_fingerprint"
      ∷ codes "submitted_at_utc"
      ∷ codes "max_runtime_minutes"
      ∷ codes "max_cost_usd"
      ∷ codes "image_digest"
      ∷ codes "schema_version"
      ∷ []

  abbrev runtime_of : Value → Result ℤ
  runtime_of v = elim (as_int v) [
    | none ↦ err (lifecycle "max_runtime_minutes must be a positive integer")
    | some n ↦ ok n
  ]

  restore_receipt : Fields → Result SubmissionReceipt
  unfolding parse_schema_version
  restore_receipt payload = do
    require_exact_keys lifecycle payload receipt_keys "submission receipt"
    schema_version ← parse_schema_version (item "schema_version" payload) "submission receipt"
    max_runtime ← runtime_of (item "max_runtime_minutes" payload)
    max_cost_usd ← parse_decimal_string (item "max_cost_usd" payload) "max_cost_usd"
    let receipt : SubmissionReceipt = record {
      provider = item "provider" payload;
      provider_resource_id = item "provider_resource_id" payload;
      provider_job_id = item "provider_job_id" payload;
      plan_fingerprint = item "plan_fingerprint" payload;
      submitted_at_utc = item "submitted_at_utc" payload;
      max_runtime_minutes = max_runtime;
      max_cost_usd = max_cost_usd;
      image_digest = item "image_digest" payload;
      schema_version = schema_version;
    }
    _ ← validate_receipt receipt
    ok receipt

  -- `SubmissionReceipt.from_dict`
  unfoldable pub receipt_from_dict : Value → Result SubmissionReceipt
  unfolding restore_receipt
  receipt_from_dict (object payload) = restore_receipt payload
  receipt_from_dict _ = err (lifecycle "submission receipt must be an object")

  -- `validate_plan_for_submission`
  unfoldable pub validate_plan_for_submission : ApprovedExecutionPlan → DateTime → Result (Unit {0})
  validate_plan_for_submission p submission_time_utc = do
    formatted ← format_utc lifecycle submission_time_utc "submission_time_utc"
    submission_time ← parse_utc lifecycle formatted "submission_time_utc"
    verified_at ← parse_utc lifecycle p.pricing_verified_at_utc "pricing_verified_at_utc"
    valid_until ← parse_utc lifecycle p.pricing_valid_until_utc "pricing_valid_until_utc"
    guard (not_after verified_at submission_time)
        (lifecycle "submission time cannot predate pricing verification")
    guard (before submission_time valid_until)
        (lifecycle "pricing evidence expired before provider submission")
    guard p.pricing_verified (lifecycle "approved plan does not contain verified pricing")
    guard p.explicit_human_authorization
        (lifecycle "approved plan does not contain explicit human authorization")
    guard p.cleanup_guaranteed (lifecycle "approved plan does not contain a cleanup guarantee")

  -- `provider_job_id.strip() if isinstance(provider_job_id, str) else provider_job_id`
  abbrev pub stripped : Value → Value
  stripped (text s) = text (strip s)
  stripped v = v

  -- `build_submission_receipt`
  unfoldable pub build_submission_receipt :
      ApprovedExecutionPlan → Value → DateTime → Result SubmissionReceipt
  build_submission_receipt p provider_job_id submitted_at_utc = do
    validate_plan_for_submission p submitted_at_utc
    formatted ← format_utc lifecycle submitted_at_utc "submitted_at_utc"
    let receipt : SubmissionReceipt = record {
      provider = p.provider;
      provider_resource_id = p.provider_resource_id;
      provider_job_id = stripped provider_job_id;
      plan_fingerprint = text (fingerprint p);
      submitted_at_utc = formatted;
      max_runtime_minutes = p.max_runtime_minutes;
      max_cost_usd = p.max_cost_usd;
      image_digest = p.image_digest;
      schema_version = pos 1;
    }
    _ ← validate_receipt receipt
    ok receipt

  -- `validate_receipt_against_plan`
  unfoldable pub validate_receipt_against_plan :
      ApprovedExecutionPlan → SubmissionReceipt → Result (Unit {0})
  validate_receipt_against_plan p r = do
    _ ← validate_receipt r
    guard (same_text r.provider p.provider)
        (lifecycle "submission receipt provider does not match approved plan")
    guard (same_text r.provider_resource_id p.provider_resource_id)
        (lifecycle "submission receipt provider_resource_id does not match approved plan")
    guard (same_text r.plan_fingerprint (text (fingerprint p)))
        (lifecycle "submission receipt plan_fingerprint does not match approved plan")
    guard (same_text r.image_digest p.image_digest)
        (lifecycle "submission receipt image_digest does not match approved plan")
    guard (int_eq r.max_runtime_minutes p.max_runtime_minutes)
        (lifecycle "submission receipt runtime limit does not match approved plan")
    guard (decimal_eq r.max_cost_usd p.max_cost_usd)
        (lifecycle "submission receipt cost limit does not match approved plan")
