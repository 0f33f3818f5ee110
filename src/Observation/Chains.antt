-- ===== src/Observation/Chains.antt =====
-- Sequences of observations of one job, each admitted by `validate_observation_transition` after
-- the one before.
use gpu_control.Base.{◌≡◌, refl, ◌∙◌, ◌≤◌, ◌≢◌, true, ok, arith, Result-cases, inl, inr}
use gpu_control.Value.{same_text→eq}
use gpu_control.Host.{Host, DateTime}
use gpu_control.Lifecycle.{not_started, job_step_allowed, cleanup_step_allowed}
use gpu_control.Lifecycle.Order.{
  job_step_trans, job_step_refl, cleanup_step_trans, cleanup_step_refl, job_step_terminal,
  cleanup_step_completed, cleanup_step_started,
}
use gpu_control.Observation.{
  JobObservation, terminal, finalized, validate_observation_shape, validate_observation_transition,
}

module _ ⦃h : Host⦄ where
  -- What one admitted transition keeps: the identity and the order of time, and both state machines.
  pub record IsAfter (a b : JobObservation) : Type 0 where
    pub from : DateTime
    pub to : DateTime
    pub reads_from : validate_observation_shape a ≡ ok from
    pub reads_to : validate_observation_shape b ≡ ok to
    pub provider : b.provider ≡ a.provider
    pub job : b.provider_job_id ≡ a.provider_job_id
    pub plan : b.plan_fingerprint ≡ a.plan_fingerprint
    pub order : from.instant ≤ to.instant
    pub job_step : job_step_allowed a.state b.state ≡ true
    pub cleanup_step : cleanup_step_allowed a.cleanup_state b.cleanup_state ≡ true

  pub transition-IsAfter :
      (a b : JobObservation) → validate_observation_transition a b ≡ ok tt → IsAfter a b
  unfolding validate_observation_transition
  transition-IsAfter a b e = elim (Result-cases (validate_observation_shape a)) [
    | inr (x, failed) ↦ absurd (ground arith)
    | inl (from, reads_from) ↦ elim (Result-cases (validate_observation_shape b)) [
      | inr (x, failed) ↦ absurd (ground arith)
      | inl (to, reads_to) ↦ record {
        from = from;
        to = to;
        reads_from = reads_from;
        reads_to = reads_to;
        provider = same_text→eq b.provider a.provider (ground arith);
        job = same_text→eq b.provider_job_id a.provider_job_id (ground arith);
        plan = same_text→eq b.plan_fingerprint a.plan_fingerprint (ground arith);
        order = ground arith;
        job_step = ground arith;
        cleanup_step = ground arith;
      }
    ]
  ]

  IsAfter-trans : (a b c : JobObservation) → IsAfter a b → IsAfter b c → IsAfter a c
  IsAfter-trans a b c p q = record {
    from = p.from;
    to = q.to;
    reads_from = p.reads_from;
    reads_to = q.reads_to;
    provider = q.provider ∙ p.provider;
    job = q.job ∙ p.job;
    plan = q.plan ∙ p.plan;
    order = ground arith;
    job_step = job_step_trans a.state b.state c.state p.job_step q.job_step;
    cleanup_step =
        cleanup_step_trans a.cleanup_state b.cleanup_state c.cleanup_state p.cleanup_step
          q.cleanup_step;
  }

  -- The histories that the transition check admits, from a first observation on.
  pub data History (first : JobObservation) : JobObservation → Type 0 where
    start : (d : DateTime) → validate_observation_shape first ≡ ok d → History first first
    next :
        {a b : JobObservation}
        → History first a
        → validate_observation_transition a b ≡ ok tt
        → History first b

  refl-IsAfter :
      (a : JobObservation) (d : DateTime) → validate_observation_shape a ≡ ok d → IsAfter a a
  refl-IsAfter a d reads = record {
    from = d;
    to = d;
    reads_from = reads;
    reads_to = reads;
    provider = refl;
    job = refl;
    plan = refl;
    order = omega arith;
    job_step = job_step_refl a.state;
    cleanup_step = cleanup_step_refl a.cleanup_state;
  }

  -- However many observations are admitted one after the other, the last is about the same job of
  -- the same plan, is not earlier than the first, and could have been admitted right after it:
  -- its states are reachable in one step of both tables.
  pub History-IsAfter :
      (first : JobObservation) {last : JobObservation} → History first last → IsAfter first last
  History-IsAfter first (start d reads) = refl-IsAfter first d reads
  History-IsAfter first (next {a} {b} past step) =
      IsAfter-trans first a b (History-IsAfter first past) (transition-IsAfter a b step)

  -- Every observation of a history has a shape in which no cleanup has begun before the job is
  -- terminal.
  pub cleanup_needs_terminal :
      (o : JobObservation) (d : DateTime)
      → validate_observation_shape o ≡ ok d
      → o.cleanup_state ≢ not_started
      → terminal o ≡ true
  unfolding validate_observation_shape
  cleanup_needs_terminal o d e started = ground arith

  -- In a history nothing that is settled changes: after a terminal observation the job state stays
  -- what it is, after a finalized one every observation is finalized, and once a cleanup has begun
  -- it stays begun and the job stays terminal.
  pub History-settled :
      (first last : JobObservation)
      → History first last
      → (terminal first ≡ true → last.state ≡ first.state)
        × (finalized first ≡ true → finalized last ≡ true)
        × (first.cleanup_state ≢ not_started
            → (last.cleanup_state ≢ not_started) × (terminal last ≡ true))
  History-settled first last past =
      let after = History-IsAfter first past in
      (
        job_step_terminal first.state last.state after.job_step,
        λ f. ground (
          arith,
          job_step_terminal first.state last.state after.job_step,
          cleanup_step_completed last.cleanup_state,
          after.cleanup_step,
        ),
        λ begun.
            let still =
              cleanup_step_started first.cleanup_state last.cleanup_state after.cleanup_step
                begun in
            (still, cleanup_needs_terminal last after.to after.reads_to still),
      )
