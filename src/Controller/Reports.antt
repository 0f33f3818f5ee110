-- ===== src/Controller/Reports.antt =====
-- `collect_provider_results`, and the whole way of a job from its submission to its manifest.
use mathlib.Core.Path.{subst₂}
use gpu_control.Base.{
  ◌≡◌, ◌∙◌, sym, true, Option, none, some, List, ok, err, Error, ◌⊎◌, arith, Result-cases,
  Option-cases, inl, inr,
}
use gpu_control.Value.{Value, text, same_text→eq}
use gpu_control.Host.{Host, DateTime}
use gpu_control.Clock.{ClockLaws}
use gpu_control.Plan.{ApprovedExecutionPlan, fingerprint}
use gpu_control.Receipt.{SubmissionReceipt, validate_receipt_against_plan}
use gpu_control.Observation.{
  JobObservation, terminal, finalized, validate_observation, validate_observation_shape,
}
use gpu_control.Observation.Chains.{History-IsAfter, History-settled}
use gpu_control.ResultPolicy.{ResultPolicy}
use gpu_control.Artifact.{OutputArtifact}
use gpu_control.Manifest.{
  ResultManifest, build_result_manifest, validate_manifest_against_lifecycle,
}
use gpu_control.Manifest.Bound.{
  IsContained, build_result_manifest-matches, build_result_manifest-IsContained,
}
use gpu_control.Adapter.{ProviderAdapter, ProviderResultSnapshot}
use gpu_control.Controller.{
  SubmittedJob, instance_of, require_provider_match, collection_gates, accept_results,
  submit_approved_plan, collect_provider_results,
}
use gpu_control.Controller.Calls.{call_between-called, call_between-refused, call_between-eq-ok}
use gpu_control.Controller.Submission.{require_provider_match-eq, submit_approved_plan-IsStarted}
use gpu_control.Controller.Sessions.{Steps, Steps-History}

module _ ⦃h : Host⦄ (laws : ClockLaws h) (policy : ResultPolicy) where
  -- A manifest that was accepted from a provider.
  pub record IsReport (r : SubmissionReceipt) (final : JobObservation) (m : ResultManifest)
      : Type 0 where
    pub finalized : finalized final ≡ true
    pub matches : validate_manifest_against_lifecycle policy m r final ≡ ok tt
    pub state : m.terminal_state ≡ final.state
    pub plan : m.plan_fingerprint ≡ r.plan_fingerprint
    pub contained : IsContained policy m.log_bytes_retained m.artifacts

  build_result_manifest-IsReport :
      (r : SubmissionReceipt) (final : JobObservation) (xs : List OutputArtifact)
      (logs truncated : Value) (t : DateTime) (m : ResultManifest)
      → build_result_manifest policy r final xs logs truncated t ≡ ok m
      → IsReport r final m
  unfolding build_result_manifest
  build_result_manifest-IsReport r final xs logs truncated t m e =
      let (done, kept, state, contained) =
        build_result_manifest-IsContained policy laws r final xs logs truncated t m e in
      let same_logs : m.log_bytes_retained ≡ logs = ground arith in
      record {
        finalized = done;
        matches = build_result_manifest-matches policy laws r final xs logs truncated t m e;
        state = state;
        plan = ground arith;
        contained = subst₂ (IsContained policy) (sym same_logs) (sym kept) contained;
      }

  accept_results-IsReport :
      (r : SubmissionReceipt) (final : JobObservation) (t : DateTime)
      (answer : Option ProviderResultSnapshot) (m : ResultManifest)
      → accept_results policy r final t answer ≡ ok m
      → IsReport r final m
  unfolding accept_results instance_of
  accept_results-IsReport r final t none m e = cc
  accept_results-IsReport r final t (some response) m e = elim (Option-cases response.artifacts) [
    | inl absent ↦ absurd (ground arith)
    | inr (xs, present) ↦
        build_result_manifest-IsReport r final xs response.log_bytes_retained
          response.logs_truncated t m (ground arith)
  ]

  -- What must hold before a provider is asked for results.
  pub record IsCollectable (name : Option Value) (r : SubmissionReceipt) (final : JobObservation)
      : Type 0 where
    pub finalized : finalized final ≡ true
    pub observed : validate_observation r final ≡ ok tt
    pub adapter : name ≡ some r.provider

  collection_gates-IsCollectable :
      (name : Option Value) (r : SubmissionReceipt) (final : JobObservation)
      → collection_gates name r final ≡ ok tt
      → IsCollectable name r final
  unfolding collection_gates
  collection_gates-IsCollectable name r final e =
      elim (Result-cases (require_provider_match name r.provider)) [
        | inr (x, failed) ↦ absurd (ground arith)
        | inl (s, matches) ↦ record {
          finalized = ground arith;
          observed = ground arith;
          adapter = (require_provider_match-eq laws name r.provider s matches).0;
        }
      ]

  -- Whatever the provider answers, when a manifest is returned, the observation was a valid one of
  -- the receipt and finalized, and the adapter was that of the receipt. The manifest passes every
  -- check against the receipt and the observation, reports the job state of the observation and the
  -- plan of the receipt, and its logs and artifacts are within the policy.
  pub collect_provider_results-IsReport :
      (a : ProviderAdapter) (r : SubmissionReceipt) (final : JobObservation) (t : DateTime)
      (s : a.State) (m : ResultManifest)
      → (collect_provider_results a policy r final t s).0 ≡ ok m
      → IsCollectable (a.provider_name s) r final × IsReport r final m
  unfolding collect_provider_results
  collect_provider_results-IsReport a r final t s m e =
      let (_, answer, passed, answered, accepted) =
        call_between-eq-ok (collection_gates (a.provider_name s) r final)
          (a.collect_results r final) (λ _. accept_results policy r final t) s m e in
      (
        collection_gates-IsCollectable (a.provider_name s) r final passed,
        accept_results-IsReport r final t answer m accepted,
      )

  -- A collection touches the provider only if the observation is a valid one of the receipt and
  -- finalized and the adapter is that of the receipt, and then leaves the provider as one call of
  -- `collect_results` does. In every other case the provider is as it was and the operation raises.
  pub collect_provider_results-IsCollectable :
      (a : ProviderAdapter) (r : SubmissionReceipt) (final : JobObservation) (t : DateTime)
      (s : a.State)
      → (IsCollectable (a.provider_name s) r final
          × ((collect_provider_results a policy r final t s).1 ≡ (a.collect_results r final s).1))
        ⊎ ((e : Error) × (collect_provider_results a policy r final t s ≡ (err e, s)))
  unfolding collect_provider_results
  collect_provider_results-IsCollectable a r final t s =
      let gates = collection_gates (a.provider_name s) r final in
      let after = λ (_ : Unit {0}). accept_results policy r final t in
      elim (Result-cases gates) [
        | inl (tt, passed) ↦ inl (
          collection_gates-IsCollectable (a.provider_name s) r final passed,
          call_between-called gates (a.collect_results r final) after s tt passed,
        )
        | inr (e, failed) ↦
            inr (e, call_between-refused gates (a.collect_results r final) after s e failed)
      ]

  receipt-plan :
      (plan : ApprovedExecutionPlan) (r : SubmissionReceipt)
      → validate_receipt_against_plan plan r ≡ ok tt
      → r.plan_fingerprint ≡ text (fingerprint plan)
  unfolding validate_receipt_against_plan
  receipt-plan plan r e = same_text→eq r.plan_fingerprint (text (fingerprint plan)) (ground arith)

  shape_of_observed :
      (r : SubmissionReceipt) (o : JobObservation)
      → validate_observation r o ≡ ok tt
      → (d : DateTime) × (validate_observation_shape o ≡ ok d)
  unfolding validate_observation
  shape_of_observed r o e = elim (Result-cases (validate_observation_shape o)) [
    | inl found ↦ found
    | inr (x, failed) ↦ absurd (ground arith)
  ]

  -- The whole way of a job. Let a submission return a job, let the controller go on with it in any
  -- order and any number of observations and cleanups, and let it collect a manifest at the end. Then
  -- the manifest is about the plan that was submitted, the job was finalized, and the state that the
  -- manifest reports is that of the first terminal observation on the way, whatever the provider
  -- answered after it.
  pub collect_provider_results-reports_first :
      (a : ProviderAdapter) (plan : ApprovedExecutionPlan) (expected : Value) (t u : DateTime)
      (s s' : a.State) (job : SubmittedJob) (middle last : JobObservation) (m : ResultManifest)
      → (submit_approved_plan a plan expected t s).0 ≡ ok job
      → Steps a job.receipt job.initial_observation middle
      → terminal middle ≡ true
      → Steps a job.receipt middle last
      → (collect_provider_results a policy job.receipt last u s').0 ≡ ok m
      → (m.plan_fingerprint ≡ text (fingerprint plan))
        × (finalized last ≡ true)
        × (m.terminal_state ≡ middle.state)
  collect_provider_results-reports_first a plan expected t u s s' job middle last m started before
        ended after collected =
      let (cleared, begun) = submit_approved_plan-IsStarted laws a plan expected t s job started in
      let (d, valid) = shape_of_observed job.receipt job.initial_observation begun.observed in
      let past = Steps-History a job.receipt job.initial_observation d valid before in
      let reached = History-IsAfter job.initial_observation past in
      let rest = Steps-History a job.receipt middle reached.to reached.reads_to after in
      let (_, report) = collect_provider_results-IsReport a job.receipt last u s' m collected in
      (
        report.plan ∙ receipt-plan plan job.receipt begun.matches,
        report.finalized,
        report.state ∙ (History-settled middle last rest).0 ended,
      )
