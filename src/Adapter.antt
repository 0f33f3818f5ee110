-- ===== src/Adapter.antt =====
-- src/gpu_control/providers/base.py: the boundary to a provider. A concrete provider is outside of
-- the model: an adapter is any state with these operations, and what it answers is not trusted. A
-- response that is no instance of the declared class is `none`, and so is a field that is no member
-- of its enumeration or no tuple.
use gpu_control.Base.{Result, Option, List}
use gpu_control.Value.{Value}
use gpu_control.Lifecycle.{JobState, CleanupState}
use gpu_control.Plan.{ApprovedExecutionPlan}
use gpu_control.Receipt.{SubmissionReceipt}
use gpu_control.Observation.{JobObservation}
use gpu_control.Artifact.{OutputArtifact}

pub record ProviderSubmission : Type 0 where
  pub provider_job_id : Value

pub record ProviderStatusSnapshot : Type 0 where
  pub provider_job_id : Value
  pub state : Option JobState
  pub status_reference : Value

pub record ProviderCleanupSnapshot : Type 0 where
  pub provider_job_id : Value
  pub cleanup_state : Option CleanupState
  pub cleanup_reference : Value

pub record ProviderResultSnapshot : Type 0 where
  pub provider_job_id : Value
  pub log_bytes_retained : Value
  pub logs_truncated : Value
  pub artifacts : Option (List OutputArtifact)

-- A call may answer or raise, and may change the provider in either case.
abbrev pub Call : Type 0 → Type 0 → Type 0
Call S A = S → Result A × S

pub record ProviderAdapter : Type 1 where
  pub State : Type 0
  -- `none` where reading the attribute raises
  pub provider_name : State → Option Value
  pub submit : ApprovedExecutionPlan → Call State (Option ProviderSubmission)
  pub observe : SubmissionReceipt → Call State (Option ProviderStatusSnapshot)
  pub cleanup : SubmissionReceipt → JobObservation → Call State (Option ProviderCleanupSnapshot)
  pub collect_results :
      SubmissionReceipt → JobObservation → Call State (Option ProviderResultSnapshot)
