-- ===== src/Capture.antt =====
-- src/gpu_control/providers/finalization.py: the capture of result metadata before the cleanup, its
-- shape and its restoration.
pub mod Restored
use gpu_control.Base.{
  ℕ, suc, String, ◌<>◌, Bool, true, false, not, ◌&&◌, Option, none, some, List, [], ◌∷◌, ◌++◌, Text,
  strip, text_eq, codes, ℤ, pos, int_eq, int_le, Result, ok, err, Error, result_contract, guard,
  ◌>>=◌, ◌>>◌, if◌then◌else◌, length, ◌+◌,
}
use gpu_control.Value.{
  Value, Values, Fields, nil, cons, text, int, object, items, end, entry, as_int, is_nonblank, item,
  require_exact_keys,
}
use gpu_control.Host.{Host, DateTime}
use gpu_control.Patterns.{is_fingerprint, is_provider_text}
use gpu_control.Clock.{require_text, read_utc}
use gpu_control.Lifecycle.{JobState, is_terminal, state_value, state_of}
use gpu_control.ResultPolicy.{ResultPolicy, validate_policy}
use gpu_control.Artifact.{OutputArtifact, natural_of, seen, validate_artifact, collected_size}
use gpu_control.Manifest.{is_bool, artifact_dicts, restore_artifacts}

pub record ProviderResultCapture : Type 0 where
  pub provider : Value
  pub provider_job_id : Value
  pub plan_fingerprint : Value
  pub submission_receipt_fingerprint : Value
  pub terminal_observation_fingerprint : Value
  pub terminal_state : JobState
  pub captured_at_utc : Value
  pub log_bytes_retained : Value
  pub logs_truncated : Value
  pub artifacts : List OutputArtifact
  pub schema_version : ℤ

abbrev captured_logs : Option ℕ → Result ℕ
captured_logs none =
    err (result_contract "captured log_bytes_retained must be a non-negative integer")
captured_logs (some n) = ok n

-- `ProviderResultCapture.to_dict`
unfoldable pub capture_to_dict : ProviderResultCapture → Fields
capture_to_dict c = entry (codes "provider") c.provider (
    entry (codes "provider_job_id") c.provider_job_id (
      entry (codes "plan_fingerprint") c.plan_fingerprint (
        entry (codes "submission_receipt_fingerprint") c.submission_receipt_fingerprint (
          entry (codes "terminal_observation_fingerprint") c.terminal_observation_fingerprint (
            entry (codes "terminal_state") (text (state_value c.terminal_state)) (
              entry (codes "captured_at_utc") c.captured_at_utc (
                entry (codes "log_bytes_retained") c.log_bytes_retained (
                  entry (codes "logs_truncated") c.logs_truncated (
                    entry (codes "artifacts") (items (artifact_dicts c.artifacts))
                      (entry (codes "schema_version") (int c.schema_version) end))))))))))

abbrev capture_keys : List Text
capture_keys =
    codes "provider"
    ∷ codes "provider_job_id"
    ∷ codes "plan_fingerprint"
    ∷ codes "submission_receipt_fingerprint"
    ∷ codes "terminal_observation_fingerprint"
    ∷ codes "terminal_state"
    ∷ codes "captured_at_utc"
    ∷ codes "log_bytes_retained"
    ∷ codes "logs_truncated"
    ∷ codes "artifacts"
    ∷ codes "schema_version"
    ∷ []

-- `len(raw_artifacts)`
unfoldable pub values_length : Values → ℕ
values_length nil = 0
values_length (cons v rest) = suc (values_length rest)

abbrev captured_version : Value → Result ℤ
captured_version v = elim (as_int v) [
  | none ↦ err (result_contract "unsupported provider result capture schema_version")
  | some n ↦
      if int_eq n (pos 1)
      then ok n
      else err (result_contract "unsupported provider result capture schema_version")
]

abbrev captured_state : Value → Result JobState
captured_state v = elim (state_of v) [
  | none ↦ err (result_contract "provider result capture terminal_state is invalid")
  | some s ↦ ok s
]

abbrev captured_array : Value → Result Values
captured_array (items vs) = ok vs
captured_array _ = err (result_contract "provider result capture artifacts must be a JSON array")

module _ ⦃h : Host⦄ where
  trimmed_utc : Value → String → Result DateTime
  trimmed_utc (text s) field = do
    guard (text_eq s (strip s))
        (result_contract (field <> " must be a non-empty trimmed timestamp"))
    read_utc result_contract s field
  trimmed_utc v field = err (result_contract (field <> " must be a non-empty trimmed timestamp"))

  -- The `_parse_utc` of this file, which refuses a text with surrounding whitespace.
  unfoldable pub parse_trimmed_utc : Value → String → Result DateTime
  unfolding trimmed_utc
  parse_trimmed_utc v field = do
    guard (is_nonblank v) (result_contract (field <> " must be a non-empty trimmed timestamp"))
    trimmed_utc v field

module _ ⦃h : Host⦄ (policy : ResultPolicy) where
  -- The loop over `artifacts`, with `seen_names` and `collected_total`; the result is the total.
  unfoldable pub check_captured : List Value → ℕ → List OutputArtifact → Result ℕ
  check_captured names total [] = ok total
  check_captured names total (a ∷ rest) = do
    validate_artifact policy a
    guard (not (seen a.name names)) (result_contract "duplicate captured artifact name")
    check_captured (a.name ∷ names) (total + collected_size a) rest

  -- `_validate_result_payload`
  unfoldable pub validate_result_payload : List OutputArtifact → Value → Value → Result (Unit {0})
  validate_result_payload artifacts log_bytes_retained logs_truncated = do
    validate_policy policy
    log_bytes ← captured_logs (natural_of log_bytes_retained)
    guard (int_le (pos log_bytes) policy.max_log_bytes)
        (result_contract "captured retained logs exceed result policy")
    guard (is_bool logs_truncated) (result_contract "captured logs_truncated must be a boolean")
    guard (int_le (pos (length artifacts)) policy.max_artifact_entries)
        (result_contract "captured artifact count exceeds result policy")
    total ← check_captured [] 0 artifacts
    guard (int_le (pos total) policy.max_total_collected_bytes)
        (result_contract "captured collected artifact total exceeds result policy")

  -- `ProviderResultCapture.validate_shape`
  unfoldable pub validate_capture : ProviderResultCapture → Result DateTime
  validate_capture c = do
    validate_policy policy
    guard (int_eq c.schema_version (pos 1))
        (result_contract "unsupported provider result capture schema_version")
    provider ← require_text result_contract c.provider "capture provider" 64
    guard (is_provider_text provider)
        (result_contract "capture provider must be a canonical lowercase identifier")
    _ ← require_text result_contract c.provider_job_id "capture provider_job_id" 512
    guard (is_fingerprint c.plan_fingerprint)
        (result_contract "capture plan_fingerprint must be a lowercase sha256 fingerprint")
    guard (is_fingerprint c.submission_receipt_fingerprint) (
        result_contract
          "capture submission_receipt_fingerprint must be a lowercase sha256 fingerprint")
    guard (is_fingerprint c.terminal_observation_fingerprint) (
        result_contract
          "capture terminal_observation_fingerprint must be a lowercase sha256 fingerprint")
    guard (is_terminal c.terminal_state)
        (result_contract "capture terminal_state must be a terminal JobState")
    validate_result_payload c.artifacts c.log_bytes_retained c.logs_truncated
    parse_trimmed_utc c.captured_at_utc "captured_at_utc"

  restore_capture : Fields → Result ProviderResultCapture
  restore_capture payload = do
    require_exact_keys result_contract payload capture_keys "provider result capture"
    schema_version ← captured_version (item "schema_version" payload)
    terminal_state ← captured_state (item "terminal_state" payload)
    raw_artifacts ← captured_array (item "artifacts" payload)
    validate_policy policy
    guard (int_le (pos (values_length raw_artifacts)) policy.max_artifact_entries)
        (result_contract "captured artifact count exceeds result policy")
    artifacts ← restore_artifacts policy raw_artifacts
    let capture : ProviderResultCapture = record {
      provider = item "provider" payload;
      provider_job_id = item "provider_job_id" payload;
      plan_fingerprint = item "plan_fingerprint" payload;
      submission_receipt_fingerprint = item "submission_receipt_fingerprint" payload;
      terminal_observation_fingerprint = item "terminal_observation_fingerprint" payload;
      terminal_state = terminal_state;
      captured_at_utc = item "captured_at_utc" payload;
      log_bytes_retained = item "log_bytes_retained" payload;
      logs_truncated = item "logs_truncated" payload;
      artifacts = artifacts;
      schema_version = schema_version;
    }
    _ ← validate_capture capture
    ok capture

  -- `ProviderResultCapture.from_dict`
  unfoldable pub capture_from_dict : Value → Result ProviderResultCapture
  unfolding restore_capture
  capture_from_dict (object payload) = restore_capture payload
  capture_from_dict _ = err (result_contract "provider result capture must be an object")
