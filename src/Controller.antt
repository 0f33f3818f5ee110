-- ===== src/Controller.antt =====
-- src/gpu_control/providers/controller.py: every operation tests what it is given, calls the adapter
-- once, and tests what the adapter answers.
pub mod Calls
pub mod Submission
pub mod Sessions
pub mod Reports
use gpu_control.Base.{
  ℕ, String, ◌<>◌, Bool, true, false, ◌&&◌, not, Option, none, some, List, [], ◌∷◌, ◌++◌, Text,
  codes, ℤ, pos, text_eq, Result, ok, err, Error, execution_gate, lifecycle, provider_contract,
  guard, ◌>>=◌, ◌>>◌, if◌then◌else◌,
}
use gpu_control.Value.{Value, text, same_text}
use gpu_control.Host.{Host, DateTime}
use gpu_control.Patterns.{is_provider_text}
use gpu_control.Clock.{require_text, format_utc}
use gpu_control.Lifecycle.{
  JobState, CleanupState, submitted, not_started, is_terminal, same_cleanup,
}
use gpu_control.Plan.{ApprovedExecutionPlan, validate_shape, validate_expected_fingerprint}
use gpu_control.Receipt.{
  SubmissionReceipt, validate_receipt, validate_plan_for_submission, build_submission_receipt,
}
use gpu_control.Observation.{
  JobObservation, terminal, finalized, validate_observation, validate_observation_transition,
}
use gpu_control.ResultPolicy.{ResultPolicy}
use gpu_control.Artifact.{OutputArtifact}
use gpu_control.Manifest.{ResultManifest, build_result_manifest}
use gpu_control.Adapter.{
  ProviderSubmission, ProviderStatusSnapshot, ProviderCleanupSnapshot, ProviderResultSnapshot, Call,
  ProviderAdapter,
}

pub record SubmittedJob : Type 0 where
  pub receipt : SubmissionReceipt
  pub initial_observation : JobObservation

-- `except (ExecutionGateError, LifecycleError) as exc: raise ProviderContractError(str(exc))`
unfoldable pub contract_error : Error → Error
contract_error (execution_gate m) = provider_contract m
contract_error (lifecycle m) = provider_contract m
contract_error e = e

abbrev pub as_contract {ℓ} : {A : Type ℓ} → Result A → Result A
as_contract (ok a) = ok a
as_contract (err e) = err (contract_error e)

-- `except LifecycleError as exc: raise ProviderContractError(str(exc))`
unfoldable pub lifecycle_contract_error : Error → Error
lifecycle_contract_error (lifecycle m) = provider_contract m
lifecycle_contract_error e = e

abbrev pub as_lifecycle_contract {ℓ} : {A : Type ℓ} → Result A → Result A
as_lifecycle_contract (ok a) = ok a
as_lifecycle_contract (err e) = err (lifecycle_contract_error e)

-- Tests, then one call, then tests of the answer. Where the first tests raise, nothing is called.
unfoldable pub call_between :
    {S A B C : Type 0} → Result A → Call S B → (A → B → Result C) → Call S C
call_between before call after s = elim before [
  | err e ↦ (err e, s)
  | ok a ↦ let (answer, s') = call s in (answer >>= after a, s')
]

-- `isinstance(response, …)`
unfoldable pub instance_of : {A : Type 0} → Option A → String → Result A
instance_of none message = err (provider_contract message)
instance_of (some a) message = ok a

module _ ⦃h : Host⦄ where
  -- `_adapter_provider`, of the attribute that was read
  unfoldable pub adapter_provider : Option Value → Result Text
  adapter_provider none = err (provider_contract "provider adapter must expose provider_name")
  adapter_provider (some v) = do
    provider ← require_text provider_contract v "provider adapter name" 64
    guard (is_provider_text provider)
        (provider_contract "provider adapter name must be a canonical lowercase identifier")
    ok provider

  -- `_require_provider_match`
  unfoldable pub require_provider_match : Option Value → Value → Result Text
  require_provider_match name provider = do
    adapter ← adapter_provider name
    guard (same_text (text adapter) provider)
        (provider_contract "provider adapter does not match lifecycle provider")
    ok adapter

  -- `_require_job_id`
  unfoldable pub require_job_id : Value → Result Text
  require_job_id v = require_text provider_contract v "provider_job_id" 512

  -- The gates of `submit_approved_plan`; the result is the provider.
  unfoldable pub submission_gates :
      Option Value → ApprovedExecutionPlan → Value → DateTime → Result Text
  submission_gates name plan expected_plan_fingerprint submitted_at_utc = do
    as_contract (do
      validate_shape plan
      validate_expected_fingerprint plan expected_plan_fingerprint
      validate_plan_for_submission plan submitted_at_utc)
    require_provider_match name plan.provider

  -- The part of `submit_approved_plan` behind the call.
  unfoldable pub accept_submission :
      ApprovedExecutionPlan → DateTime → Text → Option ProviderSubmission → Result SubmittedJob
  accept_submission plan submitted_at_utc provider answer = do
    response ← instance_of answer "provider submit must return ProviderSubmission"
    provider_job_id ← require_job_id response.provider_job_id
    as_lifecycle_contract (do
      receipt ← build_submission_receipt plan (text provider_job_id) submitted_at_utc
      observed ← format_utc provider_contract submitted_at_utc "submitted_at_utc"
      let initial : JobObservation = record {
        provider = text provider;
        provider_job_id = text provider_job_id;
        plan_fingerprint = receipt.plan_fingerprint;
        state = submitted;
        cleanup_state = not_started;
        observed_at_utc = observed;
        status_reference = text (provider ++ (codes ":submitted:" ++ provider_job_id));
        schema_version = pos 1;
      }
      validate_observation receipt initial
      ok (record { receipt = receipt; initial_observation = initial }))

  -- The previous observation of `observe_provider_job`, if there is one.
  unfoldable pub check_previous : SubmissionReceipt → Option JobObservation → Result (Unit {0})
  check_previous receipt none = ok tt
  check_previous receipt (some previous) = do
    validate_observation receipt previous
    guard (same_cleanup previous.cleanup_state not_started)
        (lifecycle "provider status observation is forbidden after cleanup has started")

  unfoldable pub observation_gates :
      Option Value → SubmissionReceipt → Option JobObservation → Result (Unit {0})
  observation_gates name receipt previous = do
    _ ← require_provider_match name receipt.provider
    as_lifecycle_contract (do _ ← validate_receipt receipt; check_previous receipt previous)

  abbrev check_step : Option JobObservation → JobObservation → Result (Unit {0})
  check_step none current = ok tt
  check_step (some previous) current = validate_observation_transition previous current

  -- The part of `observe_provider_job` behind the call.
  unfoldable pub accept_status :
      SubmissionReceipt
      → DateTime
      → Option JobObservation
      → Option ProviderStatusSnapshot
      → Result JobObservation
  accept_status receipt observed_at_utc previous answer = do
    response ← instance_of answer "provider observe must return ProviderStatusSnapshot"
    provider_job_id ← require_job_id response.provider_job_id
    guard (same_text (text provider_job_id) receipt.provider_job_id)
        (provider_contract "provider status job id does not match submission receipt")
    state ← instance_of response.state "provider status state must be a JobState"
    reference ←
        require_text provider_contract response.status_reference "provider status reference" 512
    observed ← format_utc provider_contract observed_at_utc "observed_at_utc"
    let observation : JobObservation = record {
      provider = receipt.provider;
      provider_job_id = receipt.provider_job_id;
      plan_fingerprint = receipt.plan_fingerprint;
      state = state;
      cleanup_state = not_started;
      observed_at_utc = observed;
      status_reference = text reference;
      schema_version = pos 1;
    }
    as_lifecycle_contract
        (do validate_observation receipt observation; check_step previous observation)
    ok observation

  unfoldable pub cleanup_gates :
      Option Value → SubmissionReceipt → JobObservation → Result (Unit {0})
  cleanup_gates name receipt final = do
    _ ← require_provider_match name receipt.provider
    as_lifecycle_contract (do
      _ ← validate_receipt receipt
      validate_observation receipt final
      guard (terminal final) (lifecycle "provider cleanup requires a terminal job observation"))

  -- The part of `cleanup_provider_job` behind the call.
  unfoldable pub accept_cleanup :
      SubmissionReceipt
      → JobObservation
      → DateTime
      → Option ProviderCleanupSnapshot
      → Result JobObservation
  accept_cleanup receipt final observed_at_utc answer = do
    response ← instance_of answer "provider cleanup must return ProviderCleanupSnapshot"
    provider_job_id ← require_job_id response.provider_job_id
    guard (same_text (text provider_job_id) receipt.provider_job_id)
        (provider_contract "provider cleanup job id does not match submission receipt")
    cleanup_state ←
        instance_of response.cleanup_state "provider cleanup_state must be a CleanupState"
    guard (not (same_cleanup cleanup_state not_started))
        (provider_contract "provider cleanup response cannot return not_started")
    reference ←
        require_text provider_contract response.cleanup_reference "provider cleanup reference" 512
    observed ← format_utc provider_contract observed_at_utc "observed_at_utc"
    let current : JobObservation = record {
      provider = receipt.provider;
      provider_job_id = receipt.provider_job_id;
      plan_fingerprint = receipt.plan_fingerprint;
      state = final.state;
      cleanup_state = cleanup_state;
      observed_at_utc = observed;
      status_reference = text reference;
      schema_version = pos 1;
    }
    as_lifecycle_contract
        (do validate_observation receipt current; validate_observation_transition final current)
    ok current

  unfoldable pub collection_gates :
      Option Value → SubmissionReceipt → JobObservation → Result (Unit {0})
  collection_gates name receipt final = do
    _ ← require_provider_match name receipt.provider
    as_lifecycle_contract (do
      _ ← validate_receipt receipt
      validate_observation receipt final
      guard (finalized final)
          (lifecycle "provider result collection requires finalized lifecycle state"))

  -- The part of `collect_provider_results` behind the call.
  unfoldable pub accept_results :
      ResultPolicy
      → SubmissionReceipt
      → JobObservation
      → DateTime
      → Option ProviderResultSnapshot
      → Result ResultManifest
  accept_results policy receipt final collected_at_utc answer = do
    response ← instance_of answer "provider collect_results must return ProviderResultSnapshot"
    provider_job_id ← require_job_id response.provider_job_id
    guard (same_text (text provider_job_id) receipt.provider_job_id)
        (provider_contract "provider result job id does not match submission receipt")
    artifacts ← instance_of response.artifacts "provider result artifacts must be a tuple"
    build_result_manifest policy receipt final artifacts response.log_bytes_retained
        response.logs_truncated collected_at_utc

  module _ (a : ProviderAdapter) where
    unfoldable pub submit_approved_plan :
        ApprovedExecutionPlan → Value → DateTime → Call a.State SubmittedJob
    unfolding call_between
    submit_approved_plan plan expected submitted_at_utc s =
        call_between (submission_gates (a.provider_name s) plan expected submitted_at_utc)
          (a.submit plan) (accept_submission plan submitted_at_utc) s

    unfoldable pub observe_provider_job :
        SubmissionReceipt → DateTime → Option JobObservation → Call a.State JobObservation
    unfolding call_between
    observe_provider_job receipt observed_at_utc previous s =
        call_between (observation_gates (a.provider_name s) receipt previous) (a.observe receipt)
          (λ _. accept_status receipt observed_at_utc previous) s

    unfoldable pub cleanup_provider_job :
        SubmissionReceipt → JobObservation → DateTime → Call a.State JobObservation
    unfolding call_between
    cleanup_provider_job receipt final observed_at_utc s =
        call_between (cleanup_gates (a.provider_name s) receipt final) (a.cleanup receipt final)
          (λ _. accept_cleanup receipt final observed_at_utc) s

    unfoldable pub collect_provider_results :
        ResultPolicy → SubmissionReceipt → JobObservation → DateTime → Call a.State ResultManifest
    unfolding call_between
    collect_provider_results policy receipt final collected_at_utc s =
        call_between (collection_gates (a.provider_name s) receipt final)
          (a.collect_results receipt final)
          (λ _. accept_results policy receipt final collected_at_utc) s
