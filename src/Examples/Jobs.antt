-- ===== src/Examples/Jobs.antt =====
-- The theorems of the controller, the lifecycle and the results at the run of the synthetic adapter.
use gpu_control.Base.{
  ◌≡◌, ◌≢◌, ◌⊎◌, refl, ap, true, false, some, List, [], ◌∷◌, length, Text, codes, split, pos, ok,
  err, Error, has_char,
}
use gpu_control.Value.{Value, text, int, flag, object}
use gpu_control.Lifecycle.{not_started}
use gpu_control.Plan.{fingerprint}
use gpu_control.Receipt.{
  validate_receipt, receipt_to_dict, receipt_from_dict, validate_plan_for_submission,
  build_submission_receipt, validate_receipt_against_plan,
}
use gpu_control.Receipt.Restored.{
  IsFresh, build_submission_receipt-matches, validate_plan_for_submission-IsFresh,
  receipt_from_dict-receipt_to_dict,
}
use gpu_control.Observation.{
  terminal, finalized, validate_observation_shape, observation_to_dict, observation_from_dict,
}
use gpu_control.Observation.Restored.{observation_from_dict-observation_to_dict}
use gpu_control.Observation.Chains.{IsAfter, History, History-IsAfter, History-settled}
use gpu_control.Artifact.{validate_artifact_name, OutputArtifact}
use gpu_control.Artifact.Bounds.{depth_after, validate_artifact_name-descends}
use gpu_control.Manifest.{
  check_payload, validate_manifest, build_result_manifest, manifest_to_dict, manifest_from_dict,
  validate_manifest_against_lifecycle,
}
use gpu_control.Manifest.Restored.{manifest_from_dict-manifest_to_dict}
use gpu_control.Manifest.Bound.{
  IsContained, check_payload-IsContained, build_result_manifest-matches,
}
use gpu_control.Controller.{submit_approved_plan, collect_provider_results}
use gpu_control.Controller.Submission.{
  IsCleared, IsStarted, submit_approved_plan-IsCleared, submit_approved_plan-IsStarted,
}
use gpu_control.Controller.Sessions.{
  IsNext, Steps, here, observe, clean, observe_provider_job-IsNext, cleanup_provider_job-IsNext,
  Steps-History,
}
use gpu_control.Controller.Reports.{
  IsReport, IsCollectable, collect_provider_results-IsReport,
  collect_provider_results-IsCollectable, collect_provider_results-reports_first,
}
use gpu_control.Synthetic.{fresh, synthetic_adapter, synthetic_submit, metrics, checkpoint}
use gpu_control.Examples.World.{world, world-ClockLaws, world-DecimalLaws}
use gpu_control.Examples.Data.{at, plan}
use gpu_control.Examples.Run.{
  all_opened, expected, job_id, receipt, initial, job, allocated, submitted_run, ended, watched,
  observed_run, final, cleaned, cleaned_run, policy, manifest, collected_run,
}

first : {A B : Type 0} {x y : A × B} → x ≡ y → x.0 ≡ y.0
first p = ap (λ z. z.0) p

submit_approved_plan-IsCleared_example :
    (IsCleared world-ClockLaws (synthetic_adapter.provider_name fresh) plan expected (at 150)
      × ((submit_approved_plan synthetic_adapter plan expected (at 150) fresh).1
          ≡ (synthetic_submit plan fresh).1))
    ⊎ ((e : Error) × (submit_approved_plan synthetic_adapter plan expected (at 150) fresh
          ≡ (err e, fresh)))
submit_approved_plan-IsCleared_example =
    submit_approved_plan-IsCleared world-ClockLaws synthetic_adapter plan expected (at 150) fresh

submit_approved_plan-IsStarted_example :
    IsCleared world-ClockLaws (synthetic_adapter.provider_name fresh) plan expected (at 150)
    × IsStarted world-ClockLaws plan job
submit_approved_plan-IsStarted_example =
    submit_approved_plan-IsStarted world-ClockLaws synthetic_adapter plan expected (at 150) fresh
      job (first submitted_run)

observe_provider_job-IsNext_example :
    IsNext receipt initial ended
    × (initial.cleanup_state ≡ not_started)
    × (ended.cleanup_state ≡ not_started)
observe_provider_job-IsNext_example =
    observe_provider_job-IsNext synthetic_adapter receipt (at 160) initial watched ended
      (first observed_run)

cleanup_provider_job-IsNext_example :
    IsNext receipt ended final
    × (terminal ended ≡ true)
    × (final.state ≡ ended.state)
    × (final.cleanup_state ≢ not_started)
cleanup_provider_job-IsNext_example =
    cleanup_provider_job-IsNext synthetic_adapter receipt ended (at 170)
      (record allocated { observations = 2 }) final (first cleaned_run)

initial_valid : validate_observation_shape initial ≡ ok (at 150)
unfolding all_opened
initial_valid = refl

ended_valid : validate_observation_shape ended ≡ ok (at 160)
unfolding all_opened
ended_valid = refl

to_ended : Steps synthetic_adapter receipt initial ended
to_ended = observe (at 160) watched here (first observed_run)

to_final : Steps synthetic_adapter receipt ended final
to_final = clean (at 170) (record allocated { observations = 2 }) here (first cleaned_run)

Steps-History_example : History initial ended
Steps-History_example =
    Steps-History synthetic_adapter receipt initial (at 150) initial_valid to_ended

ended-final : History ended final
ended-final = Steps-History synthetic_adapter receipt ended (at 160) ended_valid to_final

History-IsAfter_example : IsAfter ended final
History-IsAfter_example = History-IsAfter ended ended-final

History-settled_example :
    (terminal ended ≡ true → final.state ≡ ended.state)
    × (finalized ended ≡ true → finalized final ≡ true)
    × (ended.cleanup_state ≢ not_started
        → (final.cleanup_state ≢ not_started) × (terminal final ≡ true))
History-settled_example = History-settled ended final ended-final

collect_provider_results-IsReport_example :
    IsCollectable world-ClockLaws policy (synthetic_adapter.provider_name cleaned) receipt final
    × IsReport world-ClockLaws policy receipt final manifest
collect_provider_results-IsReport_example =
    collect_provider_results-IsReport world-ClockLaws policy synthetic_adapter receipt final
      (at 180) cleaned manifest (first collected_run)

collect_provider_results-IsCollectable_example :
    (IsCollectable world-ClockLaws policy (synthetic_adapter.provider_name cleaned) receipt final
      × ((collect_provider_results synthetic_adapter policy receipt final (at 180) cleaned).1
          ≡ (synthetic_adapter.collect_results receipt final cleaned).1))
    ⊎ ((e : Error) × (collect_provider_results synthetic_adapter policy receipt final
            (at 180)
            cleaned
          ≡ (err e, cleaned)))
collect_provider_results-IsCollectable_example =
    collect_provider_results-IsCollectable world-ClockLaws policy synthetic_adapter receipt final
      (at 180) cleaned

collect_provider_results-reports_first_example :
    (manifest.plan_fingerprint ≡ text (fingerprint plan))
    × (finalized final ≡ true)
    × (manifest.terminal_state ≡ ended.state)
collect_provider_results-reports_first_example =
    collect_provider_results-reports_first world-ClockLaws policy synthetic_adapter plan expected
      (at 150) (at 180) fresh cleaned job ended final manifest (first submitted_run) to_ended refl
      to_final (first collected_run)

receipt_built : build_submission_receipt plan (text job_id) (at 150) ≡ ok receipt
unfolding all_opened
receipt_built = refl

build_submission_receipt-matches_example : validate_receipt_against_plan plan receipt ≡ ok tt
build_submission_receipt-matches_example =
    build_submission_receipt-matches plan (text job_id) (at 150) receipt receipt_built

plan_fresh : validate_plan_for_submission plan (at 150) ≡ ok tt
unfolding all_opened
plan_fresh = refl

validate_plan_for_submission-IsFresh_example : IsFresh plan (at 150)
validate_plan_for_submission-IsFresh_example =
    validate_plan_for_submission-IsFresh world-ClockLaws plan (at 150) plan_fresh

receipt_valid : validate_receipt receipt ≡ ok (at 150)
unfolding all_opened
receipt_valid = refl

receipt_from_dict-receipt_to_dict_example :
    receipt_from_dict (object (receipt_to_dict receipt)) ≡ ok receipt
receipt_from_dict-receipt_to_dict_example =
    receipt_from_dict-receipt_to_dict world-DecimalLaws receipt (at 150) refl receipt_valid

observation_from_dict-observation_to_dict_example :
    observation_from_dict (object (observation_to_dict ended)) ≡ ok ended
observation_from_dict-observation_to_dict_example =
    observation_from_dict-observation_to_dict ended (at 160) ended_valid

manifest_valid : validate_manifest policy manifest ≡ ok (at 180)
unfolding all_opened
manifest_valid = refl

manifest_from_dict-manifest_to_dict_example :
    manifest_from_dict policy (object (manifest_to_dict manifest)) ≡ ok manifest
manifest_from_dict-manifest_to_dict_example =
    manifest_from_dict-manifest_to_dict policy manifest (at 180) manifest_valid

abbrev both : List OutputArtifact
both = metrics job_id ∷ checkpoint job_id ∷ []

manifest_built :
    build_result_manifest policy receipt final both (int (pos 128)) (flag false) (at 180)
    ≡ ok manifest
unfolding all_opened
manifest_built = refl

build_result_manifest-matches_example :
    validate_manifest_against_lifecycle policy manifest receipt final ≡ ok tt
build_result_manifest-matches_example =
    build_result_manifest-matches policy world-ClockLaws receipt final both (int (pos 128))
      (flag false) (at 180) manifest manifest_built

payload_checked : check_payload policy (int (pos 128)) (flag false) both ≡ ok tt
unfolding all_opened
payload_checked = refl

check_payload-IsContained_example : IsContained policy (int (pos 128)) both
check_payload-IsContained_example =
    check_payload-IsContained policy (int (pos 128)) (flag false) both payload_checked

name_checked :
    validate_artifact_name policy (text (codes "checkpoints/example.safetensors"))
    ≡ ok (codes "checkpoints/example.safetensors")
unfolding all_opened
name_checked = refl

abbrev checkpoint_name : Text
checkpoint_name = codes "checkpoints/example.safetensors"

validate_artifact_name-descends_example :
    (◌≡◌ {A = Value} (text checkpoint_name) (text checkpoint_name))
    × (has_char 92 checkpoint_name ≡ false)
    × (depth_after 0 (split b'/' checkpoint_name) ≡ some (length (split b'/' checkpoint_name)))
validate_artifact_name-descends_example =
    validate_artifact_name-descends policy (text checkpoint_name) checkpoint_name name_checked
