-- ===== src/Finalization.antt =====
-- src/gpu_control/providers/finalization.py: the capture before the cleanup and its binding to the
-- finalized lifecycle.
pub mod Bound
use gpu_control.Base.{
  ℕ, String, ◌<>◌, Bool, true, false, ◌&&◌, Option, none, some, List, [], ◌∷◌, Text, text_eq, codes,
  ℤ, pos, int_eq, Result, ok, err, Error, lifecycle, provider_contract, result_contract, guard,
  ◌>>=◌, ◌>>◌, if◌then◌else◌,
}
use gpu_control.Value.{Value, text, int, flag, same_text}
use gpu_control.Host.{Host, DateTime, not_after}
use gpu_control.Patterns.{is_provider_id}
use gpu_control.Clock.{format_utc}
use gpu_control.Lifecycle.{is_terminal, same_state, same_cleanup, not_started}
use gpu_control.Receipt.{SubmissionReceipt, validate_receipt, receipt_fingerprint}
use gpu_control.Observation.{
  JobObservation, terminal, finalized, validate_observation_shape, observation_fingerprint,
  validate_observation, validate_observation_transition,
}
use gpu_control.ResultPolicy.{ResultPolicy}
use gpu_control.Artifact.{OutputArtifact}
use gpu_control.Manifest.{
  ResultManifest, build_result_manifest, validate_manifest_against_lifecycle,
}
use gpu_control.Capture.{ProviderResultCapture, parse_trimmed_utc, validate_capture}
use gpu_control.Adapter.{ProviderResultSnapshot, ProviderAdapter, Call}
use gpu_control.Controller.{as_lifecycle_contract, call_between, instance_of, require_job_id}

pub record FinalizedCapturedResults : Type 0 where
  pub capture : ProviderResultCapture
  pub final_observation : JobObservation
  pub result_manifest : ResultManifest

-- The `_require_provider_match` of this file, of the attribute that was read.
unfoldable pub require_capturing_provider : Option Value → Value → Result (Unit {0})
require_capturing_provider none provider =
    err (provider_contract "provider adapter must expose provider_name")
require_capturing_provider (some name) provider = do
  guard (is_provider_id name)
      (provider_contract "provider adapter name must be a canonical lowercase identifier")
  guard (same_text name provider)
      (provider_contract "provider adapter does not match lifecycle provider")

module _ ⦃h : Host⦄ where
  -- The lifecycle that a capture needs: a terminal observation of the receipt before any cleanup.
  -- The result is the time of the observation.
  unfoldable pub capturable : SubmissionReceipt → JobObservation → Result DateTime
  capturable receipt observation = as_lifecycle_contract (do
    _ ← validate_receipt receipt
    validate_observation receipt observation
    terminal_at ← validate_observation_shape observation
    guard (terminal observation)
        (lifecycle "pre-cleanup result capture requires a terminal observation")
    guard (same_cleanup observation.cleanup_state not_started)
        (lifecycle "pre-cleanup result capture requires cleanup_state not_started")
    ok terminal_at)

  -- The gates of `capture_provider_results_before_cleanup`; the result is the text of the time.
  unfoldable pub capture_gates :
      Option Value → SubmissionReceipt → JobObservation → DateTime → Result Value
  capture_gates name receipt observation captured_at_utc = do
    require_capturing_provider name receipt.provider
    written ← format_utc provider_contract captured_at_utc "captured_at_utc"
    terminal_at ← capturable receipt observation
    captured_at ← parse_trimmed_utc written "captured_at_utc"
    guard (not_after terminal_at captured_at)
        (provider_contract "provider result capture cannot predate the terminal observation")
    ok written

  -- The final observation of `finalize_captured_provider_results`; the result is its time.
  unfoldable pub finalizing : SubmissionReceipt → JobObservation → JobObservation → Result DateTime
  finalizing receipt observation final = as_lifecycle_contract (do
    validate_observation receipt final
    final_at ← validate_observation_shape final
    validate_observation_transition observation final
    guard (finalized final)
        (lifecycle "captured provider results require cleanup-finalized lifecycle state")
    ok final_at)

module _ ⦃h : Host⦄ (policy : ResultPolicy) where
  -- `validate_result_capture_against_lifecycle`
  unfoldable pub validate_result_capture_against_lifecycle :
      ProviderResultCapture → SubmissionReceipt → JobObservation → Result (Unit {0})
  validate_result_capture_against_lifecycle c receipt observation = do
    captured_at ← validate_capture policy c
    terminal_at ← capturable receipt observation
    guard (same_text c.provider receipt.provider)
        (provider_contract "provider result capture provider does not match lifecycle state")
    guard (same_text c.provider_job_id receipt.provider_job_id)
        (provider_contract "provider result capture provider_job_id does not match lifecycle state")
    guard (same_text c.plan_fingerprint receipt.plan_fingerprint) (
        provider_contract "provider result capture plan_fingerprint does not match lifecycle state")
    guard (same_text c.submission_receipt_fingerprint (text (receipt_fingerprint receipt))) (
        provider_contract
          "provider result capture submission_receipt_fingerprint does not match lifecycle state")
    guard
        (same_text c.terminal_observation_fingerprint (text (observation_fingerprint observation)))
        (provider_contract
          "provider result capture terminal_observation_fingerprint does not match lifecycle state")
    guard (same_state c.terminal_state observation.state)
        (provider_contract "provider result capture terminal_state does not match lifecycle state")
    guard (not_after terminal_at captured_at)
        (provider_contract "provider result capture cannot predate the terminal observation")

  -- The part of `capture_provider_results_before_cleanup` behind the call.
  unfoldable pub accept_capture :
      SubmissionReceipt
      → JobObservation
      → Value
      → Option ProviderResultSnapshot
      → Result ProviderResultCapture
  accept_capture receipt observation written answer = do
    response ← instance_of answer "provider collect_results must return ProviderResultSnapshot"
    provider_job_id ← require_job_id response.provider_job_id
    guard (same_text (text provider_job_id) receipt.provider_job_id)
        (provider_contract "provider result job id does not match submission receipt")
    artifacts ← instance_of response.artifacts "provider result artifacts must be a tuple"
    let capture : ProviderResultCapture = record {
      provider = receipt.provider;
      provider_job_id = receipt.provider_job_id;
      plan_fingerprint = receipt.plan_fingerprint;
      submission_receipt_fingerprint = text (receipt_fingerprint receipt);
      terminal_observation_fingerprint = text (observation_fingerprint observation);
      terminal_state = observation.state;
      captured_at_utc = written;
      log_bytes_retained = response.log_bytes_retained;
      logs_truncated = response.logs_truncated;
      artifacts = artifacts;
      schema_version = pos 1;
    }
    validate_result_capture_against_lifecycle capture receipt observation
    ok capture

  -- `capture_provider_results_before_cleanup`
  unfoldable pub capture_provider_results_before_cleanup :
      (a : ProviderAdapter)
      → SubmissionReceipt
      → JobObservation
      → DateTime
      → Call a.State ProviderResultCapture
  unfolding call_between
  capture_provider_results_before_cleanup a receipt observation captured_at_utc s =
      call_between (capture_gates (a.provider_name s) receipt observation captured_at_utc)
        (a.collect_results receipt observation) (accept_capture receipt observation) s

  -- `finalize_captured_provider_results`. The manifest holds the very artifacts and log values of
  -- the capture, so the last comparisons of the source, of each with itself, find no difference.
  unfoldable pub finalize_captured_provider_results :
      ProviderResultCapture
      → SubmissionReceipt
      → JobObservation
      → JobObservation
      → DateTime
      → Result FinalizedCapturedResults
  finalize_captured_provider_results c receipt observation final committed_at_utc = do
    validate_result_capture_against_lifecycle c receipt observation
    final_at ← finalizing receipt observation final
    captured_at ← validate_capture policy c
    guard (not_after captured_at final_at)
        (provider_contract "cleanup final observation cannot predate provider result capture")
    written ← format_utc provider_contract committed_at_utc "committed_at_utc"
    committed_at ← parse_trimmed_utc written "committed_at_utc"
    guard (not_after final_at committed_at)
        (provider_contract "result manifest commit cannot predate the final observation")
    manifest ←
        build_result_manifest policy receipt final c.artifacts c.log_bytes_retained c.logs_truncated
          committed_at_utc
    validate_manifest_against_lifecycle policy manifest receipt final
    ok (record { capture = c; final_observation = final; result_manifest = manifest })
