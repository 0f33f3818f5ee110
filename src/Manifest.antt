-- ===== src/Manifest.antt =====
-- src/gpu_control/results.py: the result manifest and its binding to the lifecycle of a job.
pub mod Bound
pub mod Restored
use gpu_control.Base.{
  ℕ, String, Bool, true, false, ◌&&◌, ◌||◌, not, Option, none, some, List, [], ◌∷◌, ◌++◌, Text,
  codes, ℤ, pos, int_eq, int_le, Result, ok, err, Error, result_contract, guard, ◌>>=◌, ◌>>◌,
  if◌then◌else◌, length,
}
use gpu_control.Value.{
  Value, Values, Fields, nil, cons, text, int, object, items, end, entry, as_int, as_flag, as_text,
  same_text, item, require_exact_keys,
}
use gpu_control.Host.{Host, DateTime, not_after}
use gpu_control.Patterns.{is_fingerprint}
use gpu_control.Clock.{require_text, parse_utc, format_utc}
use gpu_control.Lifecycle.{JobState, is_terminal, same_state, state_value, state_of}
use gpu_control.Receipt.{SubmissionReceipt, validate_receipt, receipt_fingerprint}
use gpu_control.Observation.{
  JobObservation, finalized, validate_observation_shape, observation_fingerprint,
  validate_observation,
}
use gpu_control.ResultPolicy.{ResultPolicy, validate_policy}
use gpu_control.Artifact.{
  OutputArtifact, natural_of, check_artifacts, artifact_to_dict, artifact_from_dict,
}

pub record ResultManifest : Type 0 where
  pub provider : Value
  pub provider_job_id : Value
  pub plan_fingerprint : Value
  pub submission_receipt_fingerprint : Value
  pub final_observation_fingerprint : Value
  pub terminal_state : JobState
  pub collected_at_utc : Value
  pub log_bytes_retained : Value
  pub logs_truncated : Value
  pub artifacts : List OutputArtifact
  pub schema_version : ℤ

-- `isinstance(v, bool)`
unfoldable pub is_bool : Value → Bool
unfolding as_flag
is_bool v = elim (as_flag v) [ none ↦ false | some b ↦ true ]

abbrev natural_logs : Option ℕ → Result ℕ
natural_logs none = err (result_contract "log_bytes_retained must be a non-negative integer")
natural_logs (some n) = ok n

-- `[artifact.to_dict() for artifact in self.artifacts]`
unfoldable pub artifact_dicts : List OutputArtifact → Values
artifact_dicts [] = nil
artifact_dicts (a ∷ rest) = cons (object (artifact_to_dict a)) (artifact_dicts rest)

-- `ResultManifest.to_dict`
unfoldable pub manifest_to_dict : ResultManifest → Fields
manifest_to_dict m = entry (codes "provider") m.provider (
    entry (codes "provider_job_id") m.provider_job_id (
      entry (codes "plan_fingerprint") m.plan_fingerprint (
        entry (codes "submission_receipt_fingerprint") m.submission_receipt_fingerprint (
          entry (codes "final_observation_fingerprint") m.final_observation_fingerprint (
            entry (codes "terminal_state") (text (state_value m.terminal_state)) (
              entry (codes "collected_at_utc") m.collected_at_utc (
                entry (codes "log_bytes_retained") m.log_bytes_retained (
                  entry (codes "logs_truncated") m.logs_truncated (
                    entry (codes "artifacts") (items (artifact_dicts m.artifacts))
                      (entry (codes "schema_version") (int m.schema_version) end))))))))))

abbrev manifest_keys : List Text
manifest_keys =
    codes "provider"
    ∷ codes "provider_job_id"
    ∷ codes "plan_fingerprint"
    ∷ codes "submission_receipt_fingerprint"
    ∷ codes "final_observation_fingerprint"
    ∷ codes "terminal_state"
    ∷ codes "collected_at_utc"
    ∷ codes "log_bytes_retained"
    ∷ codes "logs_truncated"
    ∷ codes "artifacts"
    ∷ codes "schema_version"
    ∷ []

module _ ⦃h : Host⦄ (policy : ResultPolicy) where
  -- What is retained of the logs and the artifacts: the tests behind those of the identity.
  unfoldable pub check_payload : Value → Value → List OutputArtifact → Result (Unit {0})
  check_payload log_bytes_retained logs_truncated artifacts = do
    log_bytes ← natural_logs (natural_of log_bytes_retained)
    guard (int_le (pos log_bytes) policy.max_log_bytes)
        (result_contract "retained logs exceed result policy")
    guard (is_bool logs_truncated) (result_contract "logs_truncated must be a boolean")
    guard (int_le (pos (length artifacts)) policy.max_artifact_entries)
        (result_contract "artifact count exceeds result policy")
    total ← check_artifacts policy [] 0 artifacts
    guard (int_le (pos total) policy.max_total_collected_bytes)
        (result_contract "collected artifact total exceeds result policy")

  -- `ResultManifest.validate_shape`
  unfoldable pub validate_manifest : ResultManifest → Result DateTime
  validate_manifest m = do
    validate_policy policy
    guard (int_eq m.schema_version (pos 1))
        (result_contract "unsupported result manifest schema_version")
    _ ← require_text result_contract m.provider "manifest provider" 128
    _ ← require_text result_contract m.provider_job_id "manifest provider_job_id" 512
    guard (is_fingerprint m.plan_fingerprint)
        (result_contract "plan_fingerprint must be a lowercase sha256 fingerprint")
    guard (is_fingerprint m.submission_receipt_fingerprint)
        (result_contract "submission_receipt_fingerprint must be a lowercase sha256 fingerprint")
    guard (is_fingerprint m.final_observation_fingerprint)
        (result_contract "final_observation_fingerprint must be a lowercase sha256 fingerprint")
    guard (is_terminal m.terminal_state)
        (result_contract "terminal_state must be a terminal JobState")
    check_payload m.log_bytes_retained m.logs_truncated m.artifacts
    parse_utc result_contract m.collected_at_utc "collected_at_utc"

  -- `build_result_manifest`
  unfoldable pub build_result_manifest :
      SubmissionReceipt
      → JobObservation
      → List OutputArtifact
      → Value
      → Value
      → DateTime
      → Result ResultManifest
  build_result_manifest receipt final artifacts log_bytes_retained logs_truncated collected_at_utc =
      do
        _ ← validate_receipt receipt
        validate_observation receipt final
        final_observed_at ← validate_observation_shape final
        guard (finalized final)
            (result_contract "result collection requires a finalized job observation")
        written ← format_utc result_contract collected_at_utc "collected_at_utc"
        collected_at ← parse_utc result_contract written "collected_at_utc"
        guard (not_after final_observed_at collected_at)
            (result_contract "result collection cannot predate the final observation")
        rewritten ← format_utc result_contract collected_at "collected_at_utc"
        let manifest : ResultManifest = record {
          provider = receipt.provider;
          provider_job_id = receipt.provider_job_id;
          plan_fingerprint = receipt.plan_fingerprint;
          submission_receipt_fingerprint = text (receipt_fingerprint receipt);
          final_observation_fingerprint = text (observation_fingerprint final);
          terminal_state = final.state;
          collected_at_utc = rewritten;
          log_bytes_retained = log_bytes_retained;
          logs_truncated = logs_truncated;
          artifacts = artifacts;
          schema_version = pos 1;
        }
        _ ← validate_manifest manifest
        ok manifest

  -- `validate_manifest_against_lifecycle`
  unfoldable pub validate_manifest_against_lifecycle :
      ResultManifest → SubmissionReceipt → JobObservation → Result (Unit {0})
  validate_manifest_against_lifecycle m receipt final = do
    _ ← validate_manifest m
    _ ← validate_receipt receipt
    validate_observation receipt final
    guard (finalized final)
        (result_contract "result manifest cannot bind to a non-finalized observation")
    guard (same_text m.provider receipt.provider)
        (result_contract "result manifest provider does not match lifecycle state")
    guard (same_text m.provider_job_id receipt.provider_job_id)
        (result_contract "result manifest provider_job_id does not match lifecycle state")
    guard (same_text m.plan_fingerprint receipt.plan_fingerprint)
        (result_contract "result manifest plan_fingerprint does not match lifecycle state")
    guard (same_text m.submission_receipt_fingerprint (text (receipt_fingerprint receipt))) (
        result_contract
          "result manifest submission_receipt_fingerprint does not match lifecycle state")
    guard (same_text m.final_observation_fingerprint (text (observation_fingerprint final))) (
        result_contract
          "result manifest final_observation_fingerprint does not match lifecycle state")
    guard (same_state m.terminal_state final.state)
        (result_contract "result manifest terminal_state does not match lifecycle state")
    collected_at ← parse_utc result_contract m.collected_at_utc "collected_at_utc"
    observed_at ← validate_observation_shape final
    guard (not_after observed_at collected_at)
        (result_contract "result collection cannot predate the final observation")

  -- `tuple(OutputArtifact.from_dict(item, policy) for item in raw_artifacts)`
  unfoldable pub restore_artifacts : Values → Result (List OutputArtifact)
  restore_artifacts nil = ok []
  restore_artifacts (cons v rest) = do
    artifact ← artifact_from_dict policy v
    others ← restore_artifacts rest
    ok (artifact ∷ others)

  abbrev version_one : Value → Result ℤ
  version_one v = elim (as_int v) [
    | none ↦ err (result_contract "unsupported result manifest schema_version")
    | some n ↦
        if int_eq n (pos 1)
        then ok n
        else err (result_contract "unsupported result manifest schema_version")
  ]

  abbrev terminal_state_of : Value → Result JobState
  terminal_state_of v = elim (state_of v) [
    | none ↦ err (result_contract "terminal_state is invalid")
    | some s ↦ ok s
  ]

  abbrev artifact_array : Value → Result Values
  artifact_array (items vs) = ok vs
  artifact_array _ = err (result_contract "artifacts must be a JSON array")

  restore_manifest : Fields → Result ResultManifest
  restore_manifest payload = do
    require_exact_keys result_contract payload manifest_keys "result manifest"
    schema_version ← version_one (item "schema_version" payload)
    terminal_state ← terminal_state_of (item "terminal_state" payload)
    raw_artifacts ← artifact_array (item "artifacts" payload)
    artifacts ← restore_artifacts raw_artifacts
    let manifest : ResultManifest = record {
      provider = item "provider" payload;
      provider_job_id = item "provider_job_id" payload;
      plan_fingerprint = item "plan_fingerprint" payload;
      submission_receipt_fingerprint = item "submission_receipt_fingerprint" payload;
      final_observation_fingerprint = item "final_observation_fingerprint" payload;
      terminal_state = terminal_state;
      collected_at_utc = item "collected_at_utc" payload;
      log_bytes_retained = item "log_bytes_retained" payload;
      logs_truncated = item "logs_truncated" payload;
      artifacts = artifacts;
      schema_version = schema_version;
    }
    _ ← validate_manifest manifest
    ok manifest

  -- `ResultManifest.from_dict`
  unfoldable pub manifest_from_dict : Value → Result ResultManifest
  unfolding restore_manifest
  manifest_from_dict (object payload) = restore_manifest payload
  manifest_from_dict _ = err (result_contract "result manifest must be an object")
