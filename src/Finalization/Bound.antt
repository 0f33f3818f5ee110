-- ===== src/Finalization/Bound.antt =====
-- What a capture and a finalization of it are bound to.
use gpu_control.Base.{Option, none, some, ◌≡◌, true, ok, arith, sym, ◌∙◌, inl, inr, Result-cases}
use gpu_control.Value.{Value, text, same_text→eq}
use gpu_control.Host.{Host, DateTime, not_after}
use gpu_control.Clock.{ClockLaws}
use gpu_control.Lifecycle.{not_started}
use gpu_control.Lifecycle.Order.{job_step_terminal}
use gpu_control.Receipt.{SubmissionReceipt, receipt_fingerprint}
use gpu_control.Observation.{
  JobObservation, observation_fingerprint, terminal, finalized, validate_observation_shape,
  validate_observation_transition,
}
use gpu_control.Observation.Chains.{transition-IsAfter}
use gpu_control.ResultPolicy.{ResultPolicy}
use gpu_control.Manifest.{
  ResultManifest, build_result_manifest, validate_manifest_against_lifecycle,
}
use gpu_control.Manifest.Bound.{build_result_manifest-IsContained}
use gpu_control.Capture.{ProviderResultCapture, validate_capture}
use gpu_control.Adapter.{ProviderAdapter, ProviderResultSnapshot}
use gpu_control.Controller.{instance_of}
use gpu_control.Controller.Calls.{call_between-eq-ok}
use gpu_control.Finalization.{
  FinalizedCapturedResults, capturable, validate_result_capture_against_lifecycle, capture_gates,
  accept_capture, capture_provider_results_before_cleanup, finalizing,
  finalize_captured_provider_results,
}

module _ ⦃h : Host⦄ where
  capturable-facts :
      (r : SubmissionReceipt) (o : JobObservation) (d : DateTime)
      → capturable r o ≡ ok d
      → (terminal o ≡ true) × (o.cleanup_state ≡ not_started)
  unfolding capturable
  capturable-facts r o d e = ground arith

  finalizing-facts :
      (r : SubmissionReceipt) (o final : JobObservation) (d : DateTime)
      → finalizing r o final ≡ ok d
      → (finalized final ≡ true)
        × (validate_observation_shape final ≡ ok d)
        × (validate_observation_transition o final ≡ ok tt)
  unfolding finalizing
  finalizing-facts r o final d e = (ground arith, ground arith, ground arith)

module _ ⦃h : Host⦄ (policy : ResultPolicy) where
  -- What a capture of this lifecycle is: made of this receipt and this terminal observation before
  -- any cleanup, not before the time of that observation.
  pub record IsCaptured (r : SubmissionReceipt) (o : JobObservation) (c : ProviderResultCapture)
      : Type 0 where
    pub captured_at : DateTime
    pub terminal_at : DateTime
    pub reads : validate_capture policy c ≡ ok captured_at
    pub lifecycle : capturable r o ≡ ok terminal_at
    pub order : not_after terminal_at captured_at ≡ true
    pub terminal : terminal o ≡ true
    pub cleanup : o.cleanup_state ≡ not_started
    pub state : c.terminal_state ≡ o.state
    pub provider : c.provider ≡ r.provider
    pub job : c.provider_job_id ≡ r.provider_job_id
    pub plan : c.plan_fingerprint ≡ r.plan_fingerprint
    pub receipt : c.submission_receipt_fingerprint ≡ text (receipt_fingerprint r)
    pub observation : c.terminal_observation_fingerprint ≡ text (observation_fingerprint o)

  validate_result_capture_against_lifecycle-IsCaptured :
      (r : SubmissionReceipt) (o : JobObservation) (c : ProviderResultCapture)
      → validate_result_capture_against_lifecycle policy c r o ≡ ok tt
      → IsCaptured r o c
  unfolding validate_result_capture_against_lifecycle
  validate_result_capture_against_lifecycle-IsCaptured r o c e =
      elim (Result-cases (validate_capture policy c)) [
        | inr (x, failed) ↦ absurd (ground arith)
        | inl (captured_at, reads) ↦ elim (Result-cases (capturable r o)) [
          | inr (x, failed) ↦ absurd (ground arith)
          | inl (terminal_at, lifecycle) ↦
              let (done, idle) = capturable-facts r o terminal_at lifecycle in
              record {
                captured_at = captured_at;
                terminal_at = terminal_at;
                reads = reads;
                lifecycle = lifecycle;
                order = ground arith;
                terminal = done;
                cleanup = idle;
                state = ground arith;
                provider = same_text→eq c.provider r.provider (ground arith);
                job = same_text→eq c.provider_job_id r.provider_job_id (ground arith);
                plan = same_text→eq c.plan_fingerprint r.plan_fingerprint (ground arith);
                receipt =
                    same_text→eq c.submission_receipt_fingerprint (text (receipt_fingerprint r))
                      (ground arith);
                observation =
                    same_text→eq c.terminal_observation_fingerprint
                      (text (observation_fingerprint o)) (ground arith);
              }
        ]
      ]

  accept_capture-matches :
      (r : SubmissionReceipt) (o : JobObservation) (written : Value)
      (answer : Option ProviderResultSnapshot) (c : ProviderResultCapture)
      → accept_capture policy r o written answer ≡ ok c
      → validate_result_capture_against_lifecycle policy c r o ≡ ok tt
  unfolding accept_capture instance_of
  accept_capture-matches r o written none c e = cc
  accept_capture-matches r o written (some response) c e = ground arith

  -- Whatever the provider answers, a capture that is returned passes every check of that capture
  -- against its lifecycle: it was made of a terminal observation before any cleanup, reports the
  -- state of that observation, and is not earlier than it; it names the provider, the job and the
  -- plan of the receipt, and holds the fingerprints of the receipt and of that observation.
  pub capture_provider_results_before_cleanup-IsCaptured :
      (a : ProviderAdapter) (r : SubmissionReceipt) (o : JobObservation) (t : DateTime)
      (s : a.State) (c : ProviderResultCapture)
      → (capture_provider_results_before_cleanup policy a r o t s).0 ≡ ok c
      → (validate_result_capture_against_lifecycle policy c r o ≡ ok tt) × IsCaptured r o c
  unfolding capture_provider_results_before_cleanup
  capture_provider_results_before_cleanup-IsCaptured a r o t s c e =
      let gates = capture_gates (a.provider_name s) r o t in
      let (written, answer, _, _, accepted) =
        call_between-eq-ok gates (a.collect_results r o) (accept_capture policy r o) s c e in
      let matches = accept_capture-matches r o written answer c accepted in
      (matches, validate_result_capture_against_lifecycle-IsCaptured r o c matches)

  -- What a finalization is bound to.
  pub record IsFinalized (r : SubmissionReceipt) (o final : JobObservation)
      (c : ProviderResultCapture) (f : FinalizedCapturedResults) : Type 0 where
    pub captured : IsCaptured r o c
    pub same_capture : f.capture ≡ c
    pub same_final : f.final_observation ≡ final
    pub finalized : finalized final ≡ true
    pub final_at : DateTime
    pub reads_final : validate_observation_shape final ≡ ok final_at
    pub not_late : not_after captured.captured_at final_at ≡ true
    pub step : validate_observation_transition o final ≡ ok tt
    pub manifest : validate_manifest_against_lifecycle policy f.result_manifest r final ≡ ok tt
    pub artifacts : f.result_manifest.artifacts ≡ c.artifacts
    pub logs : f.result_manifest.log_bytes_retained ≡ c.log_bytes_retained
    pub state : f.result_manifest.terminal_state ≡ c.terminal_state

  module _ (laws : ClockLaws h) where
    manifest_artifacts :
        (r : SubmissionReceipt) (final : JobObservation) (c : ProviderResultCapture) (t : DateTime)
        (m : ResultManifest)
        → build_result_manifest policy r final c.artifacts c.log_bytes_retained c.logs_truncated t
          ≡ ok m
        → m.artifacts ≡ c.artifacts
    unfolding build_result_manifest
    manifest_artifacts r final c t m e = ground arith

    manifest_logs :
        (r : SubmissionReceipt) (final : JobObservation) (c : ProviderResultCapture) (t : DateTime)
        (m : ResultManifest)
        → build_result_manifest policy r final c.artifacts c.log_bytes_retained c.logs_truncated t
          ≡ ok m
        → m.log_bytes_retained ≡ c.log_bytes_retained
    unfolding build_result_manifest
    manifest_logs r final c t m e = ground arith

    manifest_state :
        (r : SubmissionReceipt) (o final : JobObservation) (c : ProviderResultCapture)
        (t : DateTime) (m : ResultManifest)
        → IsCaptured r o c
        → validate_observation_transition o final ≡ ok tt
        → build_result_manifest policy r final c.artifacts c.log_bytes_retained c.logs_truncated t
          ≡ ok m
        → m.terminal_state ≡ c.terminal_state
    manifest_state r o final c t m captured step e =
        let (_, _, state, _) =
          build_result_manifest-IsContained policy laws r final c.artifacts c.log_bytes_retained
            c.logs_truncated t m e in
        let after = transition-IsAfter o final step in
        let kept = job_step_terminal o.state final.state after.job_step captured.terminal in
        state ∙ kept ∙ sym captured.state

    finalization-facts :
        (r : SubmissionReceipt) (o final : JobObservation) (c : ProviderResultCapture)
        (t : DateTime) (f : FinalizedCapturedResults) (captured_at final_at : DateTime)
        → finalize_captured_provider_results policy c r o final t ≡ ok f
        → finalizing r o final ≡ ok final_at
        → validate_capture policy c ≡ ok captured_at
        → (not_after captured_at final_at ≡ true)
          × (f.capture ≡ c)
          × (f.final_observation ≡ final)
          × (build_result_manifest policy r final c.artifacts c.log_bytes_retained c.logs_truncated
                t
              ≡ ok f.result_manifest)
          × (validate_manifest_against_lifecycle policy f.result_manifest r final ≡ ok tt)
    unfolding finalize_captured_provider_results
    finalization-facts r o final c t f captured_at final_at e finals reads =
        (ground arith, ground arith, ground arith, ground arith, ground arith)

    -- A finalization that is returned holds the capture and the final observation that were given.
    -- The capture was made of the terminal observation before any cleanup: it names the provider, the
    -- job and the plan of the receipt, and holds the fingerprints of the receipt and of that
    -- observation. It is not later than the final observation, which is a finalized successor of it. The manifest passes every check against the
    -- final lifecycle and holds exactly the artifacts, log bytes and job state of the capture.
    pub finalize_captured_provider_results-IsFinalized :
        (r : SubmissionReceipt) (o final : JobObservation) (c : ProviderResultCapture)
        (t : DateTime) (f : FinalizedCapturedResults)
        → finalize_captured_provider_results policy c r o final t ≡ ok f
        → IsFinalized r o final c f
    unfolding finalize_captured_provider_results
    finalize_captured_provider_results-IsFinalized r o final c t f e =
        let captured = validate_result_capture_against_lifecycle-IsCaptured r o c (ground arith) in
        elim (Result-cases (finalizing r o final)) [
          | inr (x, failed) ↦ absurd (ground arith)
          | inl (final_at, finals) ↦
              let (done, reads, step) = finalizing-facts r o final final_at finals in
              let (late, same, same', built, bound) =
                finalization-facts r o final c t f captured.captured_at final_at e finals
                  captured.reads in
              record {
                captured = captured;
                same_capture = same;
                same_final = same';
                finalized = done;
                final_at = final_at;
                reads_final = reads;
                not_late = late;
                step = step;
                manifest = bound;
                artifacts = manifest_artifacts r final c t f.result_manifest built;
                logs = manifest_logs r final c t f.result_manifest built;
                state = manifest_state r o final c t f.result_manifest captured step built;
              }
        ]
