-- ===== src/Gateway/Beginning.antt =====
-- What a tick does first: the checks behind a claim start a run only if it was queued.
use gpu_control.Base.{
  ℕ, ◌≤◌, ◌≡◌, refl, Bool, true, false, not, inl, inr, Text, text_eq, String, codes, int_le, pos,
  leb, Bool-cases, Option-cases, Result, ok, err, ◌>>=◌, arith, if◌then◌else◌,
}
use mathlib.Core.Path.{subst}
use gpu_control.Host.{Host}
use gpu_control.Decimal.{decimal_le}
use gpu_control.Gateway.Runs.{RunState, failed, expired}
use gpu_control.Gateway.Deployment.{Deployment, registered, digest, plan_dict}
use gpu_control.Gateway.Admission.{seconds_cost}
use gpu_control.Gateway.Leases.{Job}
use gpu_control.Gateway.Claims.{submission_weight}
use gpu_control.Gateway.Steps.{task_of, due_weight}
use gpu_control.Gateway.Worker.{
  Task, Phase, starting, reconciling, watching, settling, closing, unconfigured, text_decimal,
  quote_decimal, has_backend, is_enabled, begin_submission, begin,
}

-- A property of whatever a computation returns.
abbrev pub Holds {ℓ κ} : {A : Type ℓ} → (A → Type κ) → Result A → Type (ℓ ⊔ κ)
Holds P r = (x : _) → r ≡ ok x → P x

pub ok-Holds {ℓ κ} : {A : Type ℓ} (P : A → Type κ) (a : A) → P a → Holds P (ok a)
ok-Holds P a p x e = let same : a ≡ x = cc in subst P same p

module _ {ℓ κ} {A : Type ℓ} {P : A → Type κ} where
  pub if-Holds :
      (b : Bool) {r r' : Result A} → Holds P r → Holds P r' → Holds P (if b then r else r')
  if-Holds true p p' = p
  if-Holds false p p' = p'

  pub bind-Holds {μ} :
      {B : Type μ} (m : Result B) {f : B → Result A} → ((b : B) → Holds P (f b)) → Holds P (m >>= f)
  bind-Holds (ok b) p = p b
  bind-Holds (err e) p = cc

  -- The same, with what the test and the computation gave.
  pub test-Holds :
      (b : Bool) {r r' : Result A}
      → (b ≡ true → Holds P r)
      → (b ≡ false → Holds P r')
      → Holds P (if b then r else r')
  test-Holds true p p' = p refl
  test-Holds false p p' = p' refl

  pub value-Holds {μ} :
      {B : Type μ} (m : Result B) {f : B → Result A}
      → ((b : B) → m ≡ ok b → Holds P (f b))
      → Holds P (m >>= f)
  value-Holds (ok b) p = p b refl
  value-Holds (err e) p = cc

-- What begins on a job is about its row, and starts the run only if it was queued.
pub record Begun (j : Job) (p : Phase) : Type 0 where
  pub about : (task_of p).job ≡ j.row
  pub due : (i : Text) → due_weight i p ≤ submission_weight i j

module _ ⦃h : Host⦄ (g : Deployment) (j : Job) (now : ℕ) where
  task : Task
  task = record { job = j.row; now = now }

  starting-Begun : j.was_queued ≡ true → Begun j (starting task)
  unfolding task
  starting-Begun fresh = record { about = refl; due = λ i. ground (arith, fresh) }

  closing-Begun : (state : RunState) (error : String) → Begun j (closing task state error)
  unfolding task
  closing-Begun state error = record { about = refl; due = λ i. omega arith }

  begin_submission-Begun : j.was_queued ≡ true → Holds (Begun j) (begin_submission g task)
  unfolding task begin_submission
  begin_submission-Begun fresh =
      let plan = j.row.plan in
      let start = ok-Holds (Begun j) (starting task) (starting-Begun fresh) in
      let close = λ (state : RunState) (error : String).
        ok-Holds (Begun j) (closing task state error) (closing-Begun state error) in
      bind-Holds (digest (plan_dict g plan)) (λ fingerprint.
        if-Holds (not (text_eq fingerprint j.row.fingerprint))
          (close failed "plan_integrity_failed")
          (if-Holds (leb j.row.approved_until now)
            (close expired "approval_expired_before_submission")
            (if-Holds (not (is_enabled (registered plan.provider g.settings)))
              (close failed "new_submissions_disabled")
              (bind-Holds (text_decimal (h.decimal_of_text plan.max_cost_usd)) (λ maximum.
                if-Holds (not (decimal_le maximum g.settings.max_job_cost_usd))
                  (close failed "current_operator_cost_limit")
                  (if-Holds (text_eq plan.provider (codes "demo")) start (
                    if-Holds (int_le plan.workload_manifest.quote_expires_at (pos now))
                      (close expired "quote_expired_before_submission")
                      (bind-Holds (quote_decimal plan.workload_manifest.quoted_usd_per_hour)
                        (λ quote.
                          if-Holds (decimal_le (seconds_cost quote plan.runtime_seconds) maximum)
                            start (close failed "cost_limit"))))))))))

  pub begin-Begun : (p : Phase) → begin g j now ≡ ok p → Begun j p
  unfolding begin task
  begin-Begun p e = elim (Bool-cases (has_backend j.row.plan.provider g.settings)) [
    | inl known ↦ elim (Bool-cases j.was_queued) [
      | inl fresh ↦ begin_submission-Begun fresh p (ground arith)
      | inr old ↦ elim (Option-cases j.row.handle) [
        | inl blank ↦
            let same : reconciling task ≡ p = ground arith in
            subst (Begun j) same (record { about = refl; due = λ i. omega arith })
        | inr (handle, at) ↦
            let same : watching task handle ≡ p = ground arith in
            subst (Begun j) same (record { about = refl; due = λ i. omega arith })
      ]
    ]
    | inr unknown ↦ elim (Bool-cases j.was_queued) [
      | inl fresh ↦
          let same : closing task failed "provider_not_configured" ≡ p = ground arith in
          subst (Begun j) same (closing-Begun failed "provider_not_configured")
      | inr old ↦
          let same : settling task unconfigured ≡ p = ground arith in
          subst (Begun j) same (record { about = refl; due = λ i. omega arith })
    ]
  ]
