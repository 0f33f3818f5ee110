-- ===== src/Plan/Stored.antt =====
-- src/gpu_control/execution.py: a plan restored from a dictionary, `ApprovedExecutionPlan.from_dict`.
use gpu_control.Base.{
  String, ◌<>◌, Bool, Option, none, some, List, [], ◌∷◌, Text, codes, ℤ, pos, int_eq, Result, ok,
  err, execution_gate, ◌>>=◌, ◌>>◌, if◌then◌else◌,
}
use gpu_control.Decimal.{Decimal, is_positive}
use gpu_control.Value.{
  Value, Fields, object, as_int, as_flag, as_text, is_nonblank, item, require_exact_keys,
}
use gpu_control.Host.{Host}
use gpu_control.Plan.{ApprovedExecutionPlan, validate_shape, validate_expected_fingerprint}

abbrev plan_keys : List Text
plan_keys =
    codes "provider"
    ∷ codes "provider_resource_id"
    ∷ codes "target_repo"
    ∷ codes "target_sha"
    ∷ codes "dockerfile_path"
    ∷ codes "image_digest"
    ∷ codes "container_verification_reference"
    ∷ codes "gpu_profile"
    ∷ codes "gpu_count"
    ∷ codes "max_runtime_minutes"
    ∷ codes "max_cost_usd"
    ∷ codes "verified_hourly_price_usd"
    ∷ codes "pricing_verification_reference"
    ∷ codes "pricing_verified_at_utc"
    ∷ codes "pricing_valid_until_utc"
    ∷ codes "worst_case_cost_usd"
    ∷ codes "authorization_reference"
    ∷ codes "source_verified"
    ∷ codes "container_verified"
    ∷ codes "pricing_verified"
    ∷ codes "dry_run_succeeded"
    ∷ codes "cleanup_guaranteed"
    ∷ codes "explicit_human_authorization"
    ∷ codes "schema_version"
    ∷ []

-- `_require_exact_keys(payload, _PLAN_KEYS, …)`
unfoldable pub require_plan_keys : Fields → Result (Unit {0})
require_plan_keys payload =
    require_exact_keys execution_gate payload plan_keys "approved execution plan"

unfoldable pub plan_version : Value → Result ℤ
plan_version v = elim (as_int v) [
  | none ↦ err (execution_gate "unsupported approved execution plan schema_version")
  | some n ↦
      if int_eq n (pos 1)
      then ok n
      else err (execution_gate "unsupported approved execution plan schema_version")
]

unfoldable pub plan_int : Fields → String → Result ℤ
plan_int payload field = elim (as_int (item field payload)) [
  | none ↦ err (execution_gate (field <> " must be an integer"))
  | some n ↦ ok n
]

unfoldable pub plan_flag : Fields → String → Result Bool
plan_flag payload field = elim (as_flag (item field payload)) [
  | none ↦ err (execution_gate (field <> " must be a boolean"))
  | some b ↦ ok b
]

module _ ⦃h : Host⦄ where
  -- `_parse_decimal_string`
  unfoldable pub plan_decimal : Value → String → Result Decimal
  plan_decimal v field = elim (as_text v) [
    | none ↦ err (execution_gate (field <> " must be a decimal string"))
    | some s ↦
        if is_nonblank v
        then elim (h.decimal_of_text s) [
          | none ↦ err (execution_gate (field <> " must be a decimal string"))
          | some d ↦
              if is_positive d
              then ok d
              else err (execution_gate (field <> " must be finite and positive"))
        ]
        else err (execution_gate (field <> " must be a decimal string"))
  ]

  -- The fields of the plan, each as the payload has it or tested for its type.
  unfoldable pub read_plan : Fields → Result ApprovedExecutionPlan
  read_plan payload = do
    schema_version ← plan_version (item "schema_version" payload)
    gpu_count ← plan_int payload "gpu_count"
    max_runtime_minutes ← plan_int payload "max_runtime_minutes"
    source_verified ← plan_flag payload "source_verified"
    container_verified ← plan_flag payload "container_verified"
    pricing_verified ← plan_flag payload "pricing_verified"
    dry_run_succeeded ← plan_flag payload "dry_run_succeeded"
    cleanup_guaranteed ← plan_flag payload "cleanup_guaranteed"
    explicit_human_authorization ← plan_flag payload "explicit_human_authorization"
    max_cost_usd ← plan_decimal (item "max_cost_usd" payload) "max_cost_usd"
    price ← plan_decimal (item "verified_hourly_price_usd" payload) "verified_hourly_price_usd"
    worst_case_cost_usd ← plan_decimal (item "worst_case_cost_usd" payload) "worst_case_cost_usd"
    ok (record {
      provider = item "provider" payload;
      provider_resource_id = item "provider_resource_id" payload;
      target_repo = item "target_repo" payload;
      target_sha = item "target_sha" payload;
      dockerfile_path = item "dockerfile_path" payload;
      image_digest = item "image_digest" payload;
      container_verification_reference = item "container_verification_reference" payload;
      gpu_profile = item "gpu_profile" payload;
      gpu_count = gpu_count;
      max_runtime_minutes = max_runtime_minutes;
      max_cost_usd = max_cost_usd;
      verified_hourly_price_usd = price;
      pricing_verification_reference = item "pricing_verification_reference" payload;
      pricing_verified_at_utc = item "pricing_verified_at_utc" payload;
      pricing_valid_until_utc = item "pricing_valid_until_utc" payload;
      worst_case_cost_usd = worst_case_cost_usd;
      authorization_reference = item "authorization_reference" payload;
      source_verified = source_verified;
      container_verified = container_verified;
      pricing_verified = pricing_verified;
      dry_run_succeeded = dry_run_succeeded;
      cleanup_guaranteed = cleanup_guaranteed;
      explicit_human_authorization = explicit_human_authorization;
      schema_version = schema_version;
    })

  -- `if expected_fingerprint is not None`
  abbrev check_expected : ApprovedExecutionPlan → Option Value → Result (Unit {0})
  check_expected plan none = ok tt
  check_expected plan (some expected) = validate_expected_fingerprint plan expected

  -- `ApprovedExecutionPlan.from_dict`
  unfoldable pub plan_from_dict : Value → Option Value → Result ApprovedExecutionPlan
  plan_from_dict (object payload) expected = do
    require_plan_keys payload
    plan ← read_plan payload
    validate_shape plan
    check_expected plan expected
    ok plan
  plan_from_dict _ expected = err (execution_gate "approved execution plan must be an object")
