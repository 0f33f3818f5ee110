-- ===== src/Gateway/Starting.antt =====
-- What the checks behind a claim have found when they let `start` of a backend be called.
use gpu_control.Base.{
  ℕ, ◌≡◌, ◌⊎◌, false, inl, inr, ap, ◌∙◌, true, not, Option, none, some, text_eq, text_eq→eq, String,
  codes, int_le, pos, leb, ltb, ok, arith,
}
use gpu_control.Host.{Host}
use gpu_control.Value.{Value}
use gpu_control.Decimal.{Decimal, decimal_le}
use gpu_control.Gateway.Runs.{ExperimentPlan, RunState, failed, expired}
use gpu_control.Gateway.Deployment.{Deployment, registered, digest, plan_dict}
use gpu_control.Gateway.Admission.{seconds_cost}
use gpu_control.Gateway.Leases.{Job}
use gpu_control.Gateway.Beginning.{Holds, ok-Holds, if-Holds, test-Holds, value-Holds}
use gpu_control.Gateway.Worker.{
  Task, Phase, starting, reconciling, watching, settling, closing, unconfigured, text_decimal,
  quote_decimal, has_backend, is_enabled, begin_submission, begin,
}

-- The provider's price is known to be within a maximum: the demo provider has none, and a quote is
-- still valid.
abbrev IsPriced : ⦃h : Host⦄ → ℕ → ExperimentPlan → Decimal → Type 0
IsPriced now plan maximum =
    (plan.provider ≡ codes "demo")
    ⊎ ((int_le plan.workload_manifest.quote_expires_at (pos now) ≡ false)
        × (quote : Decimal) × (quote_decimal plan.workload_manifest.quoted_usd_per_hour ≡ ok quote)
        × (decimal_le (seconds_cost quote plan.runtime_seconds) maximum ≡ true))

-- The plan of a task is the one that was approved, and it may start now.
pub record IsCleared ⦃h : Host⦄ (g : Deployment) (k : Task) : Type 0 where
  pub intact : digest (plan_dict g k.job.plan) ≡ ok k.job.fingerprint
  pub in_time : ltb k.now k.job.approved_until ≡ true
  pub enabled : is_enabled (registered k.job.plan.provider g.settings) ≡ true
  pub affordable :
      (maximum : Decimal) × (h.decimal_of_text k.job.plan.max_cost_usd ≡ some maximum)
      × (decimal_le maximum g.settings.max_job_cost_usd ≡ true)
      × IsPriced k.now k.job.plan maximum

text_decimal-eq-ok : (o : Option Decimal) (d : Decimal) → text_decimal o ≡ ok d → o ≡ some d
text_decimal-eq-ok none d e = cc
text_decimal-eq-ok (some c) d e = let same : c ≡ d = cc in ap some same

module _ ⦃h : Host⦄ (g : Deployment) (j : Job) (now : ℕ) where
  -- The phase starts the run only if the plan is cleared.
  unfoldable pub Clears : Phase → Type 0
  Clears (starting k) = (j.was_queued ≡ true) × IsCleared g k
  Clears _ = Unit

  task : Task
  task = record { job = j.row; now = now }

  close : (state : RunState) (error : String) → Holds Clears (ok (closing task state error))
  unfolding Clears task
  close state error = ok-Holds Clears (closing task state error) tt

  begin_submission-Clears : j.was_queued ≡ true → Holds Clears (begin_submission g task)
  unfolding task begin_submission Clears
  begin_submission-Clears fresh =
      let plan = j.row.plan in
      value-Holds (digest (plan_dict g plan)) (λ fingerprint dumped.
        test-Holds (not (text_eq fingerprint j.row.fingerprint))
          (λ _. close failed "plan_integrity_failed")
          (λ intact.
            test-Holds (leb j.row.approved_until now)
              (λ _. close expired "approval_expired_before_submission")
              (λ in_time.
                test-Holds (not (is_enabled (registered plan.provider g.settings)))
                  (λ _. close failed "new_submissions_disabled")
                  (λ on.
                    value-Holds (text_decimal (h.decimal_of_text plan.max_cost_usd))
                      (λ maximum read.
                        test-Holds (not (decimal_le maximum g.settings.max_job_cost_usd))
                          (λ _. close failed "current_operator_cost_limit")
                          (λ cheap.
                            let same : fingerprint ≡ j.row.fingerprint =
                              text_eq→eq fingerprint j.row.fingerprint (ground arith) in
                            let cleared : IsPriced now plan maximum → IsCleared g task = λ priced.
                              record {
                                intact = dumped ∙ ap ok same;
                                in_time = ground arith;
                                enabled = ground arith;
                                affordable = (
                                  maximum,
                                  text_decimal-eq-ok (h.decimal_of_text plan.max_cost_usd) maximum
                                      read,
                                  ground arith,
                                  priced,
                                );
                              } in
                            let start = λ (priced : IsPriced now plan maximum).
                              ok-Holds Clears (starting task) (fresh, cleared priced) in
                            test-Holds (text_eq plan.provider (codes "demo"))
                              (λ free. start (inl (text_eq→eq plan.provider (codes "demo") free)))
                              (λ _.
                                test-Holds
                                  (int_le plan.workload_manifest.quote_expires_at (pos now))
                                  (λ _. close expired "quote_expired_before_submission")
                                  (λ valid.
                                    value-Holds
                                      (quote_decimal plan.workload_manifest.quoted_usd_per_hour)
                                      (λ quote quoted.
                                        test-Holds
                                          (decimal_le (seconds_cost quote plan.runtime_seconds)
                                            maximum)
                                          (λ within. start (inr (valid, quote, quoted, within)))
                                          (λ _. close failed "cost_limit"))))))))))

  recovers :
      (o : Option Value)
      → Clears (elim o [ none ↦ reconciling task | some handle ↦ watching task handle ])
  unfolding Clears
  recovers none = tt
  recovers (some handle) = tt

  pub begin-Clears : Holds Clears (begin g j now)
  unfolding begin task Clears
  begin-Clears =
      test-Holds (has_backend j.row.plan.provider g.settings)
        (λ _.
          test-Holds j.was_queued (λ fresh. begin_submission-Clears fresh)
            (λ _.
              ok-Holds Clears
                (elim j.row.handle [ none ↦ reconciling task | some handle ↦ watching task handle ])
                (recovers j.row.handle)))
        (λ _.
          if-Holds j.was_queued (close failed "provider_not_configured")
            (ok-Holds Clears (settling task unconfigured) tt))
