-- ===== src/Examples/Captures.antt =====
-- The theorems of captures at a run with an adapter that answers before the cleanup.
use gpu_control.Base.{false, ◌≡◌, refl, some, [], ◌∷◌, codes, pos, ok}
use gpu_control.Value.{text, int, flag, object}
use gpu_control.Lifecycle.{succeeded}
use gpu_control.Manifest.{validate_manifest_against_lifecycle}
use gpu_control.Manifest.Bound.{IsContained}
use gpu_control.Capture.{
  ProviderResultCapture, parse_trimmed_utc, check_captured, validate_result_payload,
  validate_capture, capture_to_dict, capture_from_dict,
}
use gpu_control.Capture.Restored.{validate_capture-IsContained, capture_from_dict-capture_to_dict}
use gpu_control.Adapter.{ProviderAdapter, ProviderResultSnapshot}
use gpu_control.Finalization.{
  FinalizedCapturedResults, require_capturing_provider, capturable,
  validate_result_capture_against_lifecycle, capture_gates, accept_capture,
  capture_provider_results_before_cleanup, finalizing, finalize_captured_provider_results,
}
use gpu_control.Finalization.Bound.{
  IsCaptured, IsFinalized, capture_provider_results_before_cleanup-IsCaptured,
  finalize_captured_provider_results-IsFinalized,
}
use gpu_control.Synthetic.{Synthetic, synthetic_adapter, metrics, checkpoint}
use gpu_control.Examples.World.{world, world-ClockLaws, stamp}
use gpu_control.Examples.Data.{at}
use gpu_control.Examples.Run.{
  all_opened, expected, job_id, receipt, ended, final, allocated, policy, manifest,
}

abbrev snapshot : ProviderResultSnapshot
snapshot = record {
  provider_job_id = text job_id;
  log_bytes_retained = int (pos 128);
  logs_truncated = flag false;
  artifacts = some (metrics job_id ∷ checkpoint job_id ∷ []);
}

-- The synthetic provider, with results that do not wait for the cleanup.
abbrev early_adapter : ProviderAdapter
early_adapter = record {
  State = Synthetic;
  provider_name = synthetic_adapter.provider_name;
  submit = synthetic_adapter.submit;
  observe = synthetic_adapter.observe;
  cleanup = synthetic_adapter.cleanup;
  collect_results = λ r o s. (ok (some snapshot), s);
}

abbrev capture : ProviderResultCapture
capture = record {
  provider = text (codes "synthetic");
  provider_job_id = text job_id;
  plan_fingerprint = expected;
  submission_receipt_fingerprint = expected;
  terminal_observation_fingerprint = expected;
  terminal_state = succeeded;
  captured_at_utc = text (stamp 165);
  log_bytes_retained = int (pos 128);
  logs_truncated = flag false;
  artifacts = metrics job_id ∷ checkpoint job_id ∷ [];
  schema_version = pos 1;
}

captured_run :
    (capture_provider_results_before_cleanup policy early_adapter receipt ended
      (at 165)
      allocated).0
    ≡ ok capture
unfolding all_opened parse_trimmed_utc check_captured validate_result_payload validate_capture
    require_capturing_provider capturable validate_result_capture_against_lifecycle capture_gates
    accept_capture capture_provider_results_before_cleanup
captured_run = refl

capture_provider_results_before_cleanup-IsCaptured_example :
    (validate_result_capture_against_lifecycle policy capture receipt ended ≡ ok tt)
    × IsCaptured policy receipt ended capture
capture_provider_results_before_cleanup-IsCaptured_example =
    capture_provider_results_before_cleanup-IsCaptured policy early_adapter receipt ended (at 165)
      allocated capture captured_run

abbrev finished : FinalizedCapturedResults
finished = record { capture = capture; final_observation = final; result_manifest = manifest }

finalized_run :
    finalize_captured_provider_results policy capture receipt ended final (at 180) ≡ ok finished
unfolding all_opened parse_trimmed_utc check_captured validate_result_payload validate_capture
    capturable validate_result_capture_against_lifecycle finalizing
    finalize_captured_provider_results validate_manifest_against_lifecycle
finalized_run = refl

finalize_captured_provider_results-IsFinalized_example :
    IsFinalized policy receipt ended final capture finished
finalize_captured_provider_results-IsFinalized_example =
    finalize_captured_provider_results-IsFinalized policy world-ClockLaws receipt ended final
      capture (at 180) finished finalized_run

capture_valid : validate_capture policy capture ≡ ok (at 165)
unfolding all_opened parse_trimmed_utc check_captured validate_result_payload validate_capture
capture_valid = refl

validate_capture-IsContained_example : IsContained policy (int (pos 128)) capture.artifacts
validate_capture-IsContained_example =
    validate_capture-IsContained policy capture (at 165) capture_valid

capture_from_dict-capture_to_dict_example :
    capture_from_dict policy (object (capture_to_dict capture)) ≡ ok capture
capture_from_dict-capture_to_dict_example =
    capture_from_dict-capture_to_dict policy capture (at 165) capture_valid
