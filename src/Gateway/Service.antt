-- ===== src/Gateway/Service.antt =====
-- gateway/gpu_gateway/service.py: approval, submission and cancellation. An operation is a transaction
-- on the store; the read of the row that it then returns is a separate one.
use gpu_control.Base.{
  ℕ, ◌+◌, Bool, true, false, ◌&&◌, not, Option, none, some, Text, text_eq, codes, pos, int_le, ltb,
  Result, ok, err, gateway_error, guard, ◌>>=◌, ◌>>◌, if◌then◌else◌,
}
use gpu_control.Host.{Host}
use gpu_control.Gateway.Runs.{
  RunState, awaiting_approval, approved, queued, cancelled, is_final, Store, plus_one, minus_one,
  has_id, is_owned, find_run, update_runs, transaction,
}
use gpu_control.Gateway.Deployment.{
  Principal, Deployment, PublicRun, public_run, require_scope, registered, digest, plan_dict,
}
use gpu_control.Gateway.Admission.{found, then_owned}

-- `row["state"] in {"queued", "submitting", "submit_unknown", "running"} | TERMINAL`
unfoldable pub is_submitted : RunState → Bool
is_submitted awaiting_approval = false
is_submitted approved = false
is_submitted _ = true

unfoldable pub is_approved : RunState → Bool
is_approved approved = true
is_approved _ = false

-- `row["state"] in {"awaiting_approval", "approved"}`
abbrev pub is_approvable : RunState → Bool
is_approvable s = not (is_submitted s)

-- `row["state"] in {"awaiting_approval", "approved", "queued"}`
unfoldable pub is_waiting : RunState → Bool
is_waiting awaiting_approval = true
is_waiting approved = true
is_waiting queued = true
is_waiting _ = false

module _ ⦃h : Host⦄ (g : Deployment) where
  -- `ExperimentService.approve`, with the time and the approval id that it draws.
  unfoldable pub approve_body :
      Principal → Text → Text → ℕ → Text → Store → Result (Option PublicRun × Store)
  approve_body p run_id fingerprint now approval_id s = do
    row ← found (find_run (is_owned run_id p.owner) s.rows)
    guard (text_eq fingerprint row.fingerprint)
        (gateway_error "plan_changed" "Approval does not match the exact plan" 409)
    stored ← digest (plan_dict g row.plan)
    guard (text_eq stored fingerprint)
        (gateway_error "plan_changed" "Approval does not match the exact plan" 409)
    guard (is_approvable row.state)
        (gateway_error "invalid_state" "This experiment cannot be approved" 409)
    ok (
      none,
      record s {
        rows =
            update_runs (has_id run_id)
              (λ r. record r {
                state = approved;
                approval_id = approval_id;
                approved_until = now + g.settings.approval_ttl_seconds;
              })
              s.rows;
      },
    )

  unfoldable pub approve : Principal → Text → Text → ℕ → Text → Store → Result PublicRun × Store
  approve p run_id fingerprint now approval_id s =
      elim (do
        require_scope p (codes "experiments:run")
        guard p.browser (
            gateway_error "browser_approval_required"
              "Approve the exact plan in the authenticated Web UI" 403)) [
                | err e ↦ (err e, s)
                | ok _ ↦
                    then_owned p run_id
                      (transaction (approve_body p run_id fingerprint now approval_id) s)
              ]

  abbrev check_provider : Option Bool → Result (Unit {0})
  check_provider none =
      err (gateway_error "provider_unavailable" "Provider backend is not registered" 409)
  check_provider (some enabled) =
      guard enabled
        (gateway_error "provider_disabled" "This provider is not enabled on the gateway" 409)

  -- `ExperimentService.submit`
  unfoldable pub submit_body : Principal → Text → ℕ → Store → Result (Option PublicRun × Store)
  submit_body p run_id now s = do
    row ← found (find_run (is_owned run_id p.owner) s.rows)
    (if is_submitted row.state then ok (some (public_run row), s) else do
      guard (is_approved row.state && ltb now row.approved_until) (
          gateway_error "approval_required" "Current Web approval of this exact plan is required"
            409)
      check_provider (registered row.plan.provider g.settings)
      guard (not (int_le (pos g.settings.max_inflight) s.active_count))
          (gateway_error "concurrency_limit" "An experiment is already in flight" 409)
      ok (
        none,
        record s {
          active_count = plus_one s.active_count;
          rows =
              update_runs (has_id run_id) (λ r. record r { state = queued; slot_reserved = true })
                s.rows;
        },
      ))

  unfoldable pub submit : Principal → Text → ℕ → Store → Result PublicRun × Store
  submit p run_id now s = elim (require_scope p (codes "experiments:run")) [
    | err e ↦ (err e, s)
    | ok _ ↦ then_owned p run_id (transaction (submit_body p run_id now) s)
  ]

-- `ExperimentService.cancel`
unfoldable pub cancel_body : Principal → Text → Store → Result (Option PublicRun × Store)
cancel_body p run_id s = do
  row ← found (find_run (is_owned run_id p.owner) s.rows)
  (if is_final row.state
      then ok (some (public_run row), s)
      else if is_waiting row.state
      then ok (
        none,
        record s {
          active_count = if row.slot_reserved then minus_one s.active_count else s.active_count;
          rows =
              update_runs (has_id run_id)
                (λ r. record r {
                  state = cancelled;
                  slot_reserved = false;
                  cancel_requested = true;
                })
                s.rows;
        },
      )
      else ok (
        none,
        record s {
          rows = update_runs (has_id run_id) (λ r. record r { cancel_requested = true }) s.rows;
        },
      ))

unfoldable pub cancel : Principal → Text → Store → Result PublicRun × Store
cancel p run_id s = elim (require_scope p (codes "experiments:cancel")) [
  | err e ↦ (err e, s)
  | ok _ ↦ then_owned p run_id (transaction (cancel_body p run_id) s)
]
