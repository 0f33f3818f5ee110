-- ===== src/Gateway/Worker.antt =====
-- gateway/gpu_gateway/worker.py: a tick of the worker behind its claim. The tick is cut at its
-- transactions and its calls of the backend, so that several workers can take turns between these.
-- Decimals of a stored plan are finite, as `prepare` has made them.
use gpu_control.Base.{
  ℕ, zero, suc, ◌+◌, Bool, true, false, ◌&&◌, ◌||◌, not, Option, none, some, Text, text_eq, codes,
  String, pos, int_le, ltb, leb, is_empty, Result, ok, err, type_error, invalid_operation, ◌>>=◌,
  if◌then◌else◌,
}
use gpu_control.Decimal.{Decimal, decimal_le}
use gpu_control.Value.{Value, object, entry}
use gpu_control.Host.{Host}
use gpu_control.Gateway.Runs.{
  RunState, submit_unknown, running, succeeded, failed, cancelled, expired, Run, Store, has_id,
  find_run, update_runs,
}
use gpu_control.Gateway.Deployment.{Settings, Deployment, registered, is_json, digest, plan_dict}
use gpu_control.Gateway.Admission.{seconds_cost}
use gpu_control.Gateway.Leases.{Job, claim, update, finish}

-- backends.py, `Observation`
pub record Observation : Type 0 where
  pub state : RunState
  pub result : Option Value

-- What a backend returns or raises for one call of each of its methods.
pub record Answers : Type 0 where
  pub start : Result Value
  pub reconcile : Result (Option Value)
  pub cancel : Result (Unit {0})
  pub inspect : Result Observation

-- The job of a tick and the time that the tick has read.
pub record Task : Type 0 where
  pub job : Run
  pub now : ℕ

-- The calls of `update` that end a tick.
pub data Ending : Type 0 where
  unconfigured unknown_outcome started unreconciled unobserved : Ending
  still_running : (cancelling : Bool) → Ending

unfoldable pub ending : ℕ → Ending → Run → Run
ending now unconfigured r = record r { error = "provider_not_configured"; lease_until = now + 30 }
ending now unknown_outcome r = record r {
  state = submit_unknown;
  error = "submission_outcome_unknown";
  lease_until = now + 5;
}
ending now started r = record r { state = running; lease_until = now + 1; error = "" }
ending now unreconciled r = record r {
  state = submit_unknown;
  error = "operator_reconciliation_required";
  lease_until = now + 30;
}
ending now unobserved r = record r {
  error = "provider_observation_or_cleanup_failed";
  lease_until = now + 10;
}
ending now (still_running cancelling) r = record r {
  state = running;
  lease_until = now + 3;
  error = if cancelling then "cancellation_pending" else "";
}

-- What a tick does next.
pub data Phase : Type 0 where
  starting reconciling : Task → Phase
  storing adopting watching stopping : Task → Value → Phase
  inspecting : Task → Value → Bool → Phase
  settling : Task → Ending → Phase
  closing : Task → RunState → String → Phase
  finishing : Task → RunState → Option Value → Phase

-- `isinstance(handle, dict) and handle`, and whether it can be stored
abbrev pub is_durable : Value → Bool
is_durable (object (entry k v fs)) = is_json (object (entry k v fs))
is_durable _ = false

-- The states that an observation may have.
abbrev pub is_supported : RunState → Bool
is_supported running = true
is_supported succeeded = true
is_supported failed = true
is_supported cancelled = true
is_supported _ = false

abbrev pub is_running : RunState → Bool
is_running running = true
is_running _ = false

abbrev pub text_decimal : Option Decimal → Result Decimal
text_decimal none = err (invalid_operation "ConversionSyntax")
text_decimal (some d) = ok d

abbrev pub quote_decimal : Option Decimal → Result Decimal
quote_decimal none = err (type_error "conversion from NoneType to Decimal is not supported")
quote_decimal (some d) = ok d

-- backends.py, `build_backends`: the registered providers, RunPod only with a factory.
unfoldable pub has_backend : Text → Settings → Bool
has_backend name s =
    text_eq name (codes "demo")
    || text_eq name (codes "modal")
    || (text_eq name (codes "runpod") && not (is_empty s.runpod_factory))

-- `registration is not None and registration.enabled(self.settings)`
abbrev pub is_enabled : Option Bool → Bool
is_enabled none = false
is_enabled (some enabled) = enabled

module _ ⦃h : Host⦄ (g : Deployment) where
  -- The checks of a tick on a run that was queued, and what it does then.
  unfoldable pub begin_submission : Task → Result Phase
  begin_submission k = do
    let plan = k.job.plan
    let manifest = plan.workload_manifest
    fingerprint ← digest (plan_dict g plan)
    (if not (text_eq fingerprint k.job.fingerprint)
        then ok (closing k failed "plan_integrity_failed")
        else if leb k.job.approved_until k.now
        then ok (closing k expired "approval_expired_before_submission")
        else if not (is_enabled (registered plan.provider g.settings))
        then ok (closing k failed "new_submissions_disabled")
        else do
          maximum ← text_decimal (h.decimal_of_text plan.max_cost_usd)
          (if not (decimal_le maximum g.settings.max_job_cost_usd)
              then ok (closing k failed "current_operator_cost_limit")
              else if text_eq plan.provider (codes "demo")
              then ok (starting k)
              else if int_le manifest.quote_expires_at (pos k.now)
              then ok (closing k expired "quote_expired_before_submission")
              else do
                quote ← quote_decimal manifest.quoted_usd_per_hour
                (if decimal_le (seconds_cost quote plan.runtime_seconds) maximum
                    then ok (starting k)
                    else ok (closing k failed "cost_limit"))))

  -- `Worker.tick` from its claim to its first call or transaction.
  unfoldable pub begin : Job → ℕ → Result Phase
  begin j now =
      let k : Task = record { job = j.row; now = now } in
      if has_backend j.row.plan.provider g.settings
      then (if j.was_queued
          then begin_submission k
          else ok (elim j.row.handle [ none ↦ reconciling k | some handle ↦ watching k handle ]))
      else (if j.was_queued
          then ok (closing k failed "provider_not_configured")
          else ok (settling k unconfigured))

  abbrev pub is_overdue : Task → Bool
  is_overdue k = ltb (k.job.started_at + k.job.plan.runtime_seconds + 60) k.now

  -- One call of the backend or one transaction, and what comes next. The tick
  -- treats all exceptions of a backend alike.
  unfoldable pub advance : Phase → Answers → Store → Option Phase × Store
  advance (starting k) a s = elim a.start [
    | err e ↦ (some (settling k unknown_outcome), s)
    | ok handle ↦
        if is_durable handle
        then (some (storing k handle), s)
        else (some (settling k unknown_outcome), s)
  ]
  advance (storing k handle) a s = (
    some (settling k started),
    record s {
      rows =
          update_runs (has_id k.job.id)
            (λ r. record r {
              handle = elim r.handle [ none ↦ some handle | some kept ↦ some kept ];
            })
            s.rows;
    },
  )
  advance (reconciling k) a s = elim a.reconcile [
    | err e ↦ (some (settling k unobserved), s)
    | ok none ↦ (some (settling k unreconciled), s)
    | ok (some handle) ↦ (some (adopting k handle), s)
  ]
  advance (adopting k handle) a s = (
    some (watching k handle),
    update k.job (λ r. record r { handle = some handle; state = running; error = "" }) s,
  )
  advance (watching k handle) a s = elim (find_run (has_id k.job.id) s.rows) [
    | none ↦ (some (settling k unobserved), s)
    | some latest ↦
        if latest.cancel_requested || is_overdue k
        then (some (stopping k handle), s)
        else (some (inspecting k handle false), s)
  ]
  advance (stopping k handle) a s = elim a.cancel [
    | err e ↦ (some (settling k unobserved), s)
    | ok _ ↦ (some (inspecting k handle true), s)
  ]
  advance (inspecting k handle cancelling) a s = elim a.inspect [
    | err e ↦ (some (settling k unobserved), s)
    | ok o ↦
        if not (is_supported o.state)
        then (some (settling k unobserved), s)
        else if is_running o.state
        then (some (settling k (still_running cancelling)), s)
        else (some (finishing k (if cancelling then cancelled else o.state) o.result), s)
  ]
  advance (settling k e) a s = (none, update k.job (ending k.now e) s)
  advance (closing k state error) a s =
      elim (finish g.settings g.json_bytes k.job state none error s) [
        | err e ↦ (none, s)
        | ok s' ↦ (none, s')
      ]
  advance (finishing k state result) a s =
      elim (finish g.settings g.json_bytes k.job state result "" s) [
        | err e ↦ (some (settling k unobserved), s)
        | ok s' ↦ (none, s')
      ]

  -- The rest of a tick without another worker, within fuel.
  unfoldable pub complete : ℕ → Phase → Answers → Store → Option Phase × Store
  complete zero p a s = (some p, s)
  complete (suc fuel) p a s =
      let (next, s') = advance p a s in
      elim next [ none ↦ (none, s') | some q ↦ complete fuel q a s' ]

  -- `Worker.tick` without another worker: whether it found a run.
  unfoldable pub tick : ℕ → ℕ → Text → Answers → Store → Result Bool × Store
  tick now later token a s =
      let (claimed, s') = claim now token s in
      elim claimed [
        | none ↦ (ok false, s')
        | some j ↦ elim (begin j later) [
          | err e ↦ (err e, s')
          | ok p ↦ (ok true, (complete 7 p a s').1)
        ]
      ]
