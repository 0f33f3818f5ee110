-- ===== src/Controller/Submission.antt =====
-- `submit_approved_plan`: the one call that allocates, and the job that it starts.
use gpu_control.Base.{
  ◌≡◌, ◌⊎◌, inl, inr, sym, Option, none, some, Text, ok, err, Error, provider_contract, arith,
  Result-cases,
}
use gpu_control.Value.{Value, text, same_text→eq}
use gpu_control.Host.{Host, DateTime}
use gpu_control.Clock.{ClockLaws, require_text, require_text-eq-ok}
use gpu_control.Lifecycle.{submitted, not_started}
use gpu_control.Plan.{ApprovedExecutionPlan, validate_expected_fingerprint, fingerprint}
use gpu_control.Plan.Valid.{IsApproved, validate_shape-IsApproved}
use gpu_control.Receipt.{build_submission_receipt, validate_receipt_against_plan}
use gpu_control.Receipt.Restored.{
  IsFresh, validate_plan_for_submission-IsFresh, build_submission_receipt-matches,
}
use gpu_control.Observation.{validate_observation}
use gpu_control.Adapter.{ProviderAdapter, ProviderSubmission}
use gpu_control.Controller.{
  SubmittedJob, adapter_provider, require_provider_match, require_job_id, submission_gates,
  accept_submission, submit_approved_plan, instance_of,
}
use gpu_control.Controller.Calls.{call_between-refused, call_between-called, call_between-eq-ok}

module _ ⦃h : Host⦄ (laws : ClockLaws h) where
  -- What must hold before a provider is asked to allocate.
  pub record IsCleared (name : Option Value) (plan : ApprovedExecutionPlan) (expected : Value)
      (t : DateTime) : Type 0 where
    pub approved : IsApproved plan
    pub identified : expected ≡ text (fingerprint plan)
    pub fresh : IsFresh plan t
    pub adapter : name ≡ some plan.provider

  validate_expected_fingerprint-eq :
      (plan : ApprovedExecutionPlan) (expected : Value)
      → validate_expected_fingerprint plan expected ≡ ok tt
      → expected ≡ text (fingerprint plan)
  unfolding validate_expected_fingerprint
  validate_expected_fingerprint-eq plan expected e =
      sym (same_text→eq (text (fingerprint plan)) expected (ground arith))

  pub require_provider_match-eq :
      (name : Option Value) (provider : Value) (s : Text)
      → require_provider_match name provider ≡ ok s
      → (name ≡ some provider) × (provider ≡ text s)
  unfolding require_provider_match adapter_provider
  require_provider_match-eq none provider s e = cc
  require_provider_match-eq (some v) provider s e =
      elim (Result-cases (require_text provider_contract v "provider adapter name" 64)) [
        | inr (x, failed) ↦ absurd (ground arith)
        | inl (name, read) ↦
            let clean =
              require_text-eq-ok provider_contract v "provider adapter name" 64 name read in
            ground (arith, clean.is_text, same_text→eq (text name) provider)
      ]

  submission_gates-IsCleared :
      (name : Option Value) (plan : ApprovedExecutionPlan) (expected : Value) (t : DateTime)
      (s : Text)
      → submission_gates name plan expected t ≡ ok s
      → IsCleared name plan expected t × (plan.provider ≡ text s)
  unfolding submission_gates
  submission_gates-IsCleared name plan expected t s e =
      let (adapter, provider) = require_provider_match-eq name plan.provider s (ground arith) in
      (
        record {
          approved = validate_shape-IsApproved plan (ground arith);
          identified = validate_expected_fingerprint-eq plan expected (ground arith);
          fresh = validate_plan_for_submission-IsFresh laws plan t (ground arith);
          adapter = adapter;
        },
        provider,
      )

  -- A submission touches the provider only if the plan is approved, has the fingerprint that was
  -- expected, is fresh at the time of the submission and names this adapter, and then leaves it
  -- as one call of `submit` does. In every other case the provider is as it was and the operation
  -- raises.
  pub submit_approved_plan-IsCleared :
      (a : ProviderAdapter) (plan : ApprovedExecutionPlan) (expected : Value) (t : DateTime)
      (s : a.State)
      → (IsCleared (a.provider_name s) plan expected t
          × ((submit_approved_plan a plan expected t s).1 ≡ (a.submit plan s).1))
        ⊎ ((e : Error) × (submit_approved_plan a plan expected t s ≡ (err e, s)))
  unfolding submit_approved_plan
  submit_approved_plan-IsCleared a plan expected t s =
      let gates = submission_gates (a.provider_name s) plan expected t in
      let after = accept_submission plan t in
      elim (Result-cases gates) [
        | inl (provider, passed) ↦ inl (
          (submission_gates-IsCleared (a.provider_name s) plan expected t provider passed).0,
          call_between-called gates (a.submit plan) after s provider passed,
        )
        | inr (e, failed) ↦ inr (e, call_between-refused gates (a.submit plan) after s e failed)
      ]

  -- What a submission that returns has produced.
  pub record IsStarted (plan : ApprovedExecutionPlan) (job : SubmittedJob) : Type 0 where
    pub matches : validate_receipt_against_plan plan job.receipt ≡ ok tt
    pub observed : validate_observation job.receipt job.initial_observation ≡ ok tt
    pub state : job.initial_observation.state ≡ submitted
    pub cleanup : job.initial_observation.cleanup_state ≡ not_started

  accept_submission-IsStarted :
      (plan : ApprovedExecutionPlan) (t : DateTime) (provider : Text)
      (answer : Option ProviderSubmission) (job : SubmittedJob)
      → accept_submission plan t provider answer ≡ ok job
      → IsStarted plan job
  unfolding accept_submission instance_of
  accept_submission-IsStarted plan t provider none job e = cc
  accept_submission-IsStarted plan t provider (some response) job e =
      elim (Result-cases (require_job_id response.provider_job_id)) [
        | inr (x, failed) ↦ absurd (ground arith)
        | inl (id, read) ↦ elim (Result-cases (build_submission_receipt plan (text id) t)) [
          | inr (x, failed) ↦ absurd (ground arith)
          | inl (r, built) ↦
              let matches = build_submission_receipt-matches plan (text id) t r built in
              record {
                matches = ground arith;
                observed = ground arith;
                state = ground arith;
                cleanup = ground arith;
              }
        ]
      ]

  -- A submission that returns a job was cleared, the receipt of the job passes every check against
  -- the plan, and the first observation is a valid one of that receipt: submitted, with no cleanup
  -- begun.
  pub submit_approved_plan-IsStarted :
      (a : ProviderAdapter) (plan : ApprovedExecutionPlan) (expected : Value) (t : DateTime)
      (s : a.State) (job : SubmittedJob)
      → (submit_approved_plan a plan expected t s).0 ≡ ok job
      → IsCleared (a.provider_name s) plan expected t × IsStarted plan job
  unfolding submit_approved_plan
  submit_approved_plan-IsStarted a plan expected t s job e =
      let gates = submission_gates (a.provider_name s) plan expected t in
      let (provider, answer, passed, answered, accepted) =
        call_between-eq-ok gates (a.submit plan) (accept_submission plan t) s job e in
      (
        (submission_gates-IsCleared (a.provider_name s) plan expected t provider passed).0,
        accept_submission-IsStarted plan t provider answer job accepted,
      )
