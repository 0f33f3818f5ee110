-- ===== src/Examples/Run.antt =====
-- A run of the plan with the synthetic adapter: submission, two observations, cleanup, results.
use gpu_control.Base.{ℕ, ◌≡◌, refl, true, false, some, [], ◌∷◌, ◌++◌, Text, codes, pos, negsuc, ok}
use gpu_control.Decimal.{finite}
use gpu_control.Value.{Value, text, int, flag}
use gpu_control.Lifecycle.{
  submitted, succeeded, not_started, completed, state_of, cleanup_of, job_step_allowed,
  cleanup_step_allowed,
}
use gpu_control.Receipt.{
  SubmissionReceipt, validate_receipt, validate_identity, receipt_to_dict, receipt_fingerprint,
  parse_decimal_string, parse_schema_version, receipt_from_dict, validate_plan_for_submission,
  build_submission_receipt, validate_receipt_against_plan,
}
use gpu_control.Observation.{
  JobObservation, validate_observation_shape, observation_to_dict, observation_fingerprint,
  observation_from_dict, validate_observation, validate_observation_transition,
}
use gpu_control.ResultPolicy.{ResultPolicy, validate_policy, is_flag}
use gpu_control.Artifact.{
  has_special, size_of, natural_of, seen, validate_artifact_name, validate_artifact,
  check_artifacts, artifact_to_dict, disposition_of,
}
use gpu_control.Manifest.{
  ResultManifest, is_bool, check_payload, validate_manifest, build_result_manifest,
}
use gpu_control.Controller.{
  SubmittedJob, call_between, instance_of, adapter_provider, require_provider_match, require_job_id,
  submission_gates, accept_submission, check_previous, observation_gates, accept_status,
  cleanup_gates, accept_cleanup, collection_gates, accept_results, submit_approved_plan,
  observe_provider_job, cleanup_provider_job, collect_provider_results,
}
use gpu_control.Synthetic.{
  Synthetic, fresh, synthetic_adapter, synthetic_submit, synthetic_observe, synthetic_cleanup,
  synthetic_collect, metrics, checkpoint,
}
use gpu_control.Examples.World.{world, stamp, sixty_four}
use gpu_control.Examples.Data.{opened, at, digest, plan}

unfoldable pub all_opened : ℕ
unfolding opened state_of cleanup_of job_step_allowed cleanup_step_allowed validate_receipt
    validate_identity receipt_to_dict receipt_fingerprint parse_decimal_string parse_schema_version
    receipt_from_dict validate_plan_for_submission build_submission_receipt
    validate_receipt_against_plan validate_observation_shape observation_to_dict
    observation_fingerprint observation_from_dict validate_observation
    validate_observation_transition validate_policy is_flag has_special size_of natural_of seen
    validate_artifact_name validate_artifact check_artifacts artifact_to_dict disposition_of is_bool
    check_payload validate_manifest build_result_manifest call_between instance_of adapter_provider
    require_provider_match require_job_id submission_gates accept_submission check_previous
    observation_gates accept_status cleanup_gates accept_cleanup collection_gates accept_results
    submit_approved_plan observe_provider_job cleanup_provider_job collect_provider_results
    synthetic_submit synthetic_observe synthetic_cleanup synthetic_collect
all_opened = 0

abbrev pub expected : Value
expected = text (codes "sha256:" ++ sixty_four b'a')

abbrev pub job_id : Text
job_id = codes "synthetic-aaaaaaaaaaaa"

abbrev pub receipt : SubmissionReceipt
receipt = record {
  provider = text (codes "synthetic");
  provider_resource_id = text (codes "rtx-4090");
  provider_job_id = text job_id;
  plan_fingerprint = expected;
  submitted_at_utc = text (stamp 150);
  max_runtime_minutes = pos 30;
  max_cost_usd = finite (pos 30) (negsuc 1);
  image_digest = text digest;
  schema_version = pos 1;
}

abbrev pub initial : JobObservation
initial = record {
  provider = text (codes "synthetic");
  provider_job_id = text job_id;
  plan_fingerprint = expected;
  state = submitted;
  cleanup_state = not_started;
  observed_at_utc = text (stamp 150);
  status_reference = text (codes "synthetic:submitted:synthetic-aaaaaaaaaaaa");
  schema_version = pos 1;
}

abbrev pub job : SubmittedJob
job = record { receipt = receipt; initial_observation = initial }

abbrev pub allocated : Synthetic
allocated = record { job_id = some job_id; observations = 0; cleaned = false }

pub submitted_run :
    submit_approved_plan synthetic_adapter plan expected (at 150) fresh ≡ (ok job, allocated)
unfolding all_opened
submitted_run = refl

abbrev pub ended : JobObservation
ended = record initial {
  state = succeeded;
  observed_at_utc = text (stamp 160);
  status_reference = text (codes "synthetic-status:synthetic-aaaaaaaaaaaa:succeeded");
}

abbrev pub watched : Synthetic
watched = record allocated { observations = 1 }

pub observed_run :
    observe_provider_job synthetic_adapter receipt (at 160) (some initial) watched
    ≡ (ok ended, record allocated { observations = 2 })
unfolding all_opened
observed_run = refl

abbrev pub final : JobObservation
final = record ended {
  cleanup_state = completed;
  observed_at_utc = text (stamp 170);
  status_reference = text (codes "synthetic-cleanup:synthetic-aaaaaaaaaaaa:completed");
}

abbrev pub cleaned : Synthetic
cleaned = record allocated { observations = 2; cleaned = true }

pub cleaned_run :
    cleanup_provider_job synthetic_adapter receipt ended
      (at 170)
      (record allocated { observations = 2 })
    ≡ (ok final, cleaned)
unfolding all_opened
cleaned_run = refl

abbrev pub policy : ResultPolicy
policy = record {
  max_log_bytes = pos 1000;
  max_artifact_entries = pos 8;
  max_name_length = pos 64;
  max_reference_length = pos 128;
  max_media_type_length = pos 64;
  max_declared_artifact_bytes = pos 4000000000;
  max_collected_file_bytes = pos 1000;
  max_total_collected_bytes = pos 2000;
  large_artifacts = text (codes "reference_only");
  require_sha256 = flag true;
  auto_fetch_references = flag false;
  schema_version = pos 1;
}

abbrev pub manifest : ResultManifest
manifest = record {
  provider = text (codes "synthetic");
  provider_job_id = text job_id;
  plan_fingerprint = expected;
  submission_receipt_fingerprint = expected;
  final_observation_fingerprint = expected;
  terminal_state = succeeded;
  collected_at_utc = text (stamp 180);
  log_bytes_retained = int (pos 128);
  logs_truncated = flag false;
  artifacts = metrics job_id ∷ checkpoint job_id ∷ [];
  schema_version = pos 1;
}

pub collected_run :
    collect_provider_results synthetic_adapter policy receipt final (at 180) cleaned
    ≡ (ok manifest, cleaned)
unfolding all_opened
collected_run = refl
