-- ===== src/Controller/Sessions.antt =====
-- A job under the controller, from its submission to its results.
use gpu_control.Base.{◌≡◌, ◌≢◌, true, Option, none, some, ok, arith}
use gpu_control.Host.{Host, DateTime}
use gpu_control.Lifecycle.{not_started}
use gpu_control.Receipt.{SubmissionReceipt}
use gpu_control.Observation.{
  JobObservation, terminal, validate_observation, validate_observation_shape,
  validate_observation_transition,
}
use gpu_control.Observation.Chains.{History, start, next}
use gpu_control.Adapter.{ProviderAdapter, ProviderStatusSnapshot, ProviderCleanupSnapshot}
use gpu_control.Controller.{
  instance_of, observation_gates, check_previous, accept_status, cleanup_gates, accept_cleanup,
  observe_provider_job, cleanup_provider_job,
}
use gpu_control.Controller.Calls.{call_between-eq-ok}

module _ ⦃h : Host⦄ where
  -- An accepted answer continues the history of the job and belongs to its receipt.
  pub record IsNext (r : SubmissionReceipt) (previous current : JobObservation) : Type 0 where
    pub observed : validate_observation r current ≡ ok tt
    pub step : validate_observation_transition previous current ≡ ok tt

  accept_status-IsNext :
      (r : SubmissionReceipt) (t : DateTime) (previous : JobObservation)
      (answer : Option ProviderStatusSnapshot) (o : JobObservation)
      → accept_status r t (some previous) answer ≡ ok o
      → IsNext r previous o × (o.cleanup_state ≡ not_started)
  unfolding accept_status instance_of
  accept_status-IsNext r t previous none o e = cc
  accept_status-IsNext r t previous (some response) o e =
      (record { observed = ground arith; step = ground arith }, ground arith)

  accept_cleanup-IsNext :
      (r : SubmissionReceipt) (final : JobObservation) (t : DateTime)
      (answer : Option ProviderCleanupSnapshot) (o : JobObservation)
      → accept_cleanup r final t answer ≡ ok o
      → IsNext r final o × (o.state ≡ final.state) × (o.cleanup_state ≢ not_started)
  unfolding accept_cleanup instance_of
  accept_cleanup-IsNext r final t none o e = cc
  accept_cleanup-IsNext r final t (some response) o e =
      (record { observed = ground arith; step = ground arith }, ground arith, ground arith)

  module _ (a : ProviderAdapter) where
    -- An observation that is returned after a previous one is a valid one of the receipt and an
    -- admitted successor of the previous one. In neither has a cleanup begun.
    pub observe_provider_job-IsNext :
        (r : SubmissionReceipt) (t : DateTime) (previous : JobObservation) (s : a.State)
        (o : JobObservation)
        → (observe_provider_job a r t (some previous) s).0 ≡ ok o
        → IsNext r previous o
          × (previous.cleanup_state ≡ not_started)
          × (o.cleanup_state ≡ not_started)
    unfolding observe_provider_job observation_gates check_previous
    observe_provider_job-IsNext r t previous s o e =
        let gates = observation_gates (a.provider_name s) r (some previous) in
        let (_, answer, passed, answered, accepted) =
          call_between-eq-ok gates (a.observe r) (λ _. accept_status r t (some previous)) s o e in
        let (following, idle) = accept_status-IsNext r t previous answer o accepted in
        (following, ground arith, idle)

    -- A cleanup that returns an observation was asked for a terminal job; the observation is a valid
    -- one of the receipt and an admitted successor, keeps the job state, and says that a cleanup
    -- has begun.
    pub cleanup_provider_job-IsNext :
        (r : SubmissionReceipt) (final : JobObservation) (t : DateTime) (s : a.State)
        (o : JobObservation)
        → (cleanup_provider_job a r final t s).0 ≡ ok o
        → IsNext r final o
          × (terminal final ≡ true)
          × (o.state ≡ final.state)
          × (o.cleanup_state ≢ not_started)
    unfolding cleanup_provider_job cleanup_gates
    cleanup_provider_job-IsNext r final t s o e =
        let gates = cleanup_gates (a.provider_name s) r final in
        let (_, answer, passed, answered, accepted) =
          call_between-eq-ok gates (a.cleanup r final) (λ _. accept_cleanup r final t) s o e in
        let (following, same, begun) = accept_cleanup-IsNext r final t answer o accepted in
        (following, ground arith, same, begun)

    -- What the controller may do with a job, one operation after the other, each fed with the last
    -- observation. The state of the provider is any state at each call, since the provider goes on by
    -- itself between the calls; a call that raises leaves the last observation.
    pub data Steps (r : SubmissionReceipt) (first : JobObservation) : JobObservation → Type 0 where
      here : Steps r first first
      observe :
          {o o' : JobObservation} (t : DateTime) (s : a.State)
          → Steps r first o
          → (observe_provider_job a r t (some o) s).0 ≡ ok o'
          → Steps r first o'
      clean :
          {o o' : JobObservation} (t : DateTime) (s : a.State)
          → Steps r first o
          → (cleanup_provider_job a r o t s).0 ≡ ok o'
          → Steps r first o'

    -- Whatever the provider answers, the observations that the controller returns one after the
    -- other, from a valid first one, form a history that the transition check admits.
    pub Steps-History :
        (r : SubmissionReceipt) (first : JobObservation) {last : JobObservation} (d : DateTime)
        → validate_observation_shape first ≡ ok d
        → Steps r first last
        → History first last
    Steps-History r first d valid here = start d valid
    Steps-History r first d valid (observe {o} {o'} t s past e) =
        next (Steps-History r first d valid past)
          ((observe_provider_job-IsNext r t o s o' e).0.step)
    Steps-History r first d valid (clean {o} {o'} t s past e) =
        next (Steps-History r first d valid past)
          ((cleanup_provider_job-IsNext r o t s o' e).0.step)
