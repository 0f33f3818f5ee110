-- ===== src/Authorization/Human.antt =====
-- src/gpu_control/human_authorization.py: explicit human intent, bound to one plan, and the permit that a
-- live submission needs.
use gpu_control.Base.{
  ℕ, ◌+◌, String, ◌<>◌, Bool, true, false, ◌&&◌, not, none, some, [], ◌∷◌, Text, codes, text_eq,
  is_empty, pos, ℤ, int_eq, int_le, int_pos, leb, all_in, length, ◌==◌, Result, ok, err,
  human_authorization, execution_gate, type_error, guard, ◌>>=◌, ◌>>◌, if◌then◌else◌,
}
use gpu_control.Decimal.{Decimal, decimal_le, is_positive}
use gpu_control.Value.{Value, text, same_text, as_int}
use gpu_control.Host.{Host, DateTime, is_utc, before, not_after}
use gpu_control.Clock.{read_utc}
use gpu_control.Patterns.{is_hex_lower, is_repo_char, is_sha256_text, is_provider_text, after_slash}
use gpu_control.Plan.{ApprovedExecutionPlan, validate_shape, fingerprint}
use gpu_control.Authorization.{equals_one, plain_text}
use gpu_control.Authorization.Paid.{PaidAuthorizationEvidence}

pub record HumanAuthorizationEvidence : Type 0 where
  pub authorization_id : Value
  pub actor : Value
  pub decision_record_id : Value
  pub control_plane_sha : Value
  pub plan_fingerprint : Value
  pub target_repo : Value
  pub target_sha : Value
  pub image_digest : Value
  pub provider : Value
  pub provider_resource_id : Value
  pub gpu_count : Value
  pub max_runtime_minutes : Value
  pub max_cost_usd : Value
  pub authorized_at_utc : Value
  pub valid_until_utc : Value
  pub authorization_reference : Value
  pub schema_version : Value

pub record LiveExecutionPermit : Type 0 where
  pub plan_fingerprint : Value
  pub actor : Value
  pub decision_record_id : Value
  pub human_authorization_id : Value
  pub human_authorization_reference : Value
  pub paid_authorization_reference : Value
  pub repository_security_reference : Value
  pub control_plane_sha : Value
  pub valid_until_utc : Value

-- `^[0-9a-f]{40}$`
abbrev pub is_sha40_text : Text → Bool
is_sha40_text s = (length s == 40) && all_in is_hex_lower s

-- `^[A-Za-z0-9_.-]+/[A-Za-z0-9_.-]+$`
abbrev pub is_repo_name : Text → Bool
is_repo_name [] = false
is_repo_name (c ∷ s) = is_repo_char c && (elim (after_slash s) [
  | none ↦ false
  | some name ↦ not (is_empty name) && all_in is_repo_char name
])

-- `pattern.fullmatch(v)`, which raises where the value is no text.
unfoldable pub require_match : (Text → Bool) → Value → String → Result (Unit {0})
require_match pattern (text s) message = guard (pattern s) (human_authorization message)
require_match pattern v message = err (type_error "expected string or bytes-like object")

abbrev pub human : Value → String → Result Text
human = plain_text human_authorization

-- The longest validity: 15 minutes, in microseconds.
abbrev pub max_validity : ℕ
max_validity = 900000000

-- `except ExecutionGateError as exc: raise HumanAuthorizationError(str(exc))`
unfoldable pub as_human : Result (Unit {0}) → Result (Unit {0})
as_human (err (execution_gate m)) = err (human_authorization m)
as_human r = r

-- `_require_now_utc`
abbrev pub require_now : DateTime → Result (Unit {0})
require_now now = guard (is_utc now) (human_authorization "now_utc must be timezone-aware UTC")

abbrev pub positive_int : Value → Result ℤ
positive_int v = elim (as_int v) [
  | none ↦ err (human_authorization "max_runtime_minutes must be a positive integer")
  | some n ↦
      if int_pos n
      then ok n
      else err (human_authorization "max_runtime_minutes must be a positive integer")
]

-- What `validate_shape` returns, and the runtime that it has read.
pub record Bounds : Type 0 where
  pub authorized : DateTime
  pub valid_until : DateTime
  pub cost : Decimal
  pub runtime : ℤ

-- `not v or v == "not-live"`: the reference that `authorize_paid_execution` returns is a text
abbrev pub is_live : Value → Bool
is_live (text s) = not (is_empty s) && not (text_eq s (codes "not-live"))
is_live v = true

abbrev pub exact : String → Value → Value → Result (Unit {0})
exact field v w =
    guard (same_text v w)
      (human_authorization ("human authorization " <> (field <> " does not match execution plan")))

-- The fields that are those of the plan, behind the validation of both.
unfoldable pub check_exact :
    HumanAuthorizationEvidence → ApprovedExecutionPlan → Bounds → Result (Unit {0})
check_exact e plan b = do
  exact "target_repo" e.target_repo plan.target_repo
  exact "target_sha" e.target_sha plan.target_sha
  exact "image_digest" e.image_digest plan.image_digest
  exact "provider" e.provider plan.provider
  exact "provider_resource_id" e.provider_resource_id plan.provider_resource_id
  guard (elim (as_int e.gpu_count) [ none ↦ false | some n ↦ int_eq n plan.gpu_count ])
      (human_authorization "human authorization gpu_count does not match execution plan")
  exact "authorization_reference" e.authorization_reference plan.authorization_reference
  guard (int_le plan.max_runtime_minutes b.runtime)
      (human_authorization "execution plan runtime exceeds human-authorized bound")
  guard (decimal_le plan.max_cost_usd b.cost)
      (human_authorization "execution plan cost exceeds human-authorized bound")

module _ ⦃h : Host⦄ where
  -- `_utc`
  unfoldable pub human_utc : Value → String → Result DateTime
  human_utc v field = do s ← human v field; read_utc human_authorization s field

  -- `_cost`
  unfoldable pub human_cost : Value → Result Decimal
  human_cost v = do
    s ← human v "max_cost_usd"
    (elim (h.decimal_of_text s) [
      | none ↦ err (human_authorization "max_cost_usd must be a decimal string")
      | some d ↦
          if is_positive d
          then ok d
          else err (human_authorization "max_cost_usd must be finite and positive")
    ])

  -- The first checks of `HumanAuthorizationEvidence.validate_shape`: the texts and the patterns.
  unfoldable pub check_texts : HumanAuthorizationEvidence → Result (Unit {0})
  check_texts e = do
    guard (equals_one e.schema_version)
        (human_authorization "unsupported human authorization schema_version")
    _ ← human e.authorization_id "authorization_id"
    _ ← human e.actor "actor"
    _ ← human e.decision_record_id "decision_record_id"
    require_match is_sha40_text e.control_plane_sha
        "control_plane_sha must be a lowercase 40-character commit SHA"
    require_match is_sha256_text e.plan_fingerprint
        "plan_fingerprint must be a lowercase sha256 fingerprint"
    require_match is_repo_name e.target_repo "target_repo must be a canonical owner/repository name"
    require_match is_sha40_text e.target_sha
        "target_sha must be a lowercase 40-character commit SHA"
    require_match is_sha256_text e.image_digest "image_digest must be a lowercase sha256 digest"
    require_match is_provider_text e.provider
        "provider must be a canonical lowercase provider identifier"
    _ ← human e.provider_resource_id "provider_resource_id"
    guard (elim (as_int e.gpu_count) [ none ↦ false | some n ↦ int_eq n (pos 1) ])
        (human_authorization "gpu_count must be exactly one")

  -- `HumanAuthorizationEvidence.validate_shape`
  unfoldable pub validate_human : HumanAuthorizationEvidence → Result Bounds
  validate_human e = do
    check_texts e
    runtime ← positive_int e.max_runtime_minutes
    cost ← human_cost e.max_cost_usd
    authorized ← human_utc e.authorized_at_utc "authorized_at_utc"
    valid_until ← human_utc e.valid_until_utc "valid_until_utc"
    guard (before authorized valid_until)
        (human_authorization "valid_until_utc must be after authorized_at_utc")
    guard (leb valid_until.instant (authorized.instant + max_validity))
        (human_authorization "human authorization validity may not exceed 15 minutes")
    _ ← human e.authorization_reference "authorization_reference"
    ok (record {
      authorized = authorized;
      valid_until = valid_until;
      cost = cost;
      runtime = runtime;
    })

  -- `HumanAuthorizationEvidence.validate_for_live_plan`
  unfoldable pub validate_for_live_plan :
      HumanAuthorizationEvidence
      → ApprovedExecutionPlan
      → Text
      → Text
      → Text
      → DateTime
      → Result Bounds
  validate_for_live_plan e plan expected_actor expected_sha expected_record now = do
    as_human (validate_shape plan)
    b ← validate_human e
    require_now now
    guard (not_after b.authorized now) (human_authorization "human authorization is not valid yet")
    guard (before now b.valid_until)
        (human_authorization "human authorization expired before live submission")
    actor ← human (text expected_actor) "expected_actor"
    guard (same_text e.actor (text actor))
        (human_authorization "human authorization actor does not match current authorized actor")
    guard (same_text e.control_plane_sha (text expected_sha) && is_sha40_text expected_sha)
        (human_authorization "human authorization is not bound to the running control-plane commit")
    expected ← human (text expected_record) "expected_decision_record_id"
    guard (same_text e.decision_record_id (text expected))
        (human_authorization "human authorization is not bound to the current DecisionRecord")
    guard (same_text e.plan_fingerprint (text (fingerprint plan)))
        (human_authorization "human authorization is not bound to the exact execution plan")
    check_exact e plan b
    ok b

  -- `LiveExecutionPermit.validate_for_plan`
  unfoldable pub validate_permit :
      LiveExecutionPermit → ApprovedExecutionPlan → DateTime → Result (Unit {0})
  validate_permit permit plan now = do
    as_human (validate_shape plan)
    require_match is_sha256_text permit.plan_fingerprint
        "live execution permit plan_fingerprint is invalid"
    guard (same_text permit.plan_fingerprint (text (fingerprint plan)))
        (human_authorization "live execution permit does not match the exact execution plan")
    _ ← human permit.actor "live execution permit actor"
    _ ← human permit.decision_record_id "live execution permit decision_record_id"
    _ ← human permit.human_authorization_id "live execution permit human_authorization_id"
    guard (same_text permit.human_authorization_reference plan.authorization_reference) (
        human_authorization
          "live execution permit human authorization reference does not match plan")
    _ ←
        human permit.paid_authorization_reference
          "live execution permit paid_authorization_reference"
    reference ←
        human permit.repository_security_reference
          "live execution permit repository_security_reference"
    guard (not (text_eq reference (codes "not-live")))
        (human_authorization "live execution permit requires repository security evidence")
    require_match is_sha40_text permit.control_plane_sha
        "live execution permit control_plane_sha is invalid"
    valid_until ← human_utc permit.valid_until_utc "live execution permit valid_until_utc"
    require_now now
    guard (before now valid_until)
        (human_authorization "live execution permit expired before provider submission")

  unfoldable pub permit_of :
      ApprovedExecutionPlan
      → HumanAuthorizationEvidence
      → PaidAuthorizationEvidence
      → LiveExecutionPermit
  permit_of plan e paid = record {
    plan_fingerprint = text (fingerprint plan);
    actor = text paid.actor;
    decision_record_id = e.decision_record_id;
    human_authorization_id = e.authorization_id;
    human_authorization_reference = e.authorization_reference;
    paid_authorization_reference = text paid.authorization_reference;
    repository_security_reference = paid.repository_security_reference;
    control_plane_sha = e.control_plane_sha;
    valid_until_utc = e.valid_until_utc;
  }

  -- `authorize_live_plan`
  unfoldable pub authorize_live_plan :
      ApprovedExecutionPlan
      → HumanAuthorizationEvidence
      → PaidAuthorizationEvidence
      → Text
      → Text
      → DateTime
      → Result LiveExecutionPermit
  authorize_live_plan plan e paid expected_sha expected_record now = do
    _ ← validate_for_live_plan e plan paid.actor expected_sha expected_record now
    guard (text_eq paid.actor paid.triggering_actor)
        (human_authorization "paid authorization actor and triggering actor must match")
    guard (is_live paid.repository_security_reference)
        (human_authorization "live execution requires repository security evidence")
    validate_permit (permit_of plan e paid) plan now
    ok (permit_of plan e paid)
