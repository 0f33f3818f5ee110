-- ===== src/Gateway/Admission.antt =====
-- gateway/gpu_gateway/service.py: `ExperimentService.prepare`, which saves a plan for approval.
use gpu_control.Base.{
  ℕ, ◌*◌, Bool, false, ◌&&◌, not, Option, none, some, [], Text, text_eq, codes, pos, pos_part,
  int_le, leb, ltb, is_empty, Result, ok, err, gateway_error, invalid_operation, guard, ◌>>=◌, ◌>>◌,
  if◌then◌else◌,
}
use gpu_control.Decimal.{
  Decimal, finite, special, is_positive, decimal_le, decimal_min, round_context,
}
use gpu_control.Host.{Host}
use gpu_control.Gateway.Runs.{
  awaiting_approval, is_final, Workload, ExperimentPlan, Run, Store, is_owned, find_run, count_runs,
  insert_run, transaction,
}
use gpu_control.Gateway.Deployment.{
  Principal, Prepare, Deployment, PublicRun, public_run, require_scope, registered, find_workload,
  is_json, digest, plan_dict, request_dict,
}

-- `service.TERMINAL`, as the test of `select` and of the early returns
abbrev pub is_open : Text → Run → Bool
is_open owner r = text_eq r.owner owner && not (is_final r.state)

abbrev pub found : Option Run → Result Run
found none = err (gateway_error "not_found" "Experiment not found" 404)
found (some r) = ok r

-- `quoted * Decimal(seconds) / Decimal(3600)` for a positive quote and a positive time
unfoldable pub seconds_cost : Decimal → ℕ → Decimal
unfolding round_context
seconds_cost (finite c e) n = elim (round_context (pos_part c * n) 1 e) [
  | finite p f ↦ round_context (pos_part p) 3600 f
  | special ↦ special
]
seconds_cost special n = special

-- What a transaction answers at once, or the row that is read behind it.
unfoldable pub then_owned :
    Principal → Text → Result (Option PublicRun) × Store → Result PublicRun × Store
unfolding find_run
then_owned p run_id (err e, s) = (err e, s)
then_owned p run_id (ok (some r), s) = (ok r, s)
then_owned p run_id (ok none, s) =
    (found (find_run (is_owned run_id p.owner) s.rows) >>= λ r. ok (public_run r), s)

-- The row that `prepare` inserts, with the defaults of the columns.
unfoldable pub new_run : Principal → Prepare → ℕ → Text → ExperimentPlan → Text → Text → Run
new_run p q now new_id plan request_hash fingerprint = record {
  id = new_id;
  owner = p.owner;
  idempotency_key = q.idempotency_key;
  request_hash = request_hash;
  fingerprint = fingerprint;
  plan = plan;
  state = awaiting_approval;
  created_at = now;
  started_at = 0;
  approved_until = 0;
  approval_id = [];
  handle = none;
  result = none;
  error = "";
  lease_until = 0;
  lease_token = [];
  cancel_requested = false;
  slot_reserved = false;
}

abbrev pub has_key : Text → Text → Run → Bool
has_key owner key r = text_eq r.owner owner && text_eq r.idempotency_key key

module _ ⦃h : Host⦄ (g : Deployment) where
  registered_workload : Prepare → Result Workload
  registered_workload q = elim (find_workload q.workload g.workloads) [
    | none ↦ err (gateway_error "unknown_workload" "Use an operator-registered workload" 400)
    | some w ↦ elim (registered w.provider g.settings) [
      | none ↦ err (gateway_error "unknown_workload" "Use an operator-registered workload" 400)
      | some enabled ↦ ok w
    ]
  ]

  abbrev cap_of : Option Decimal → Result Decimal
  cap_of none = err (invalid_operation "ConversionSyntax")
  cap_of (some d) = ok d

  abbrev current_quote : Workload → ℕ → Result Decimal
  current_quote w now = elim w.quoted_usd_per_hour [
    | none ↦ err (
        gateway_error "quote_required"
          "An operator-verified current all-in compute quote is required" 400)
    | some quote ↦
        if not (is_empty w.quote_reference) && not (int_le w.quote_expires_at (pos now))
        then ok quote
        else err (
            gateway_error "quote_required"
              "An operator-verified current all-in compute quote is required" 400)
  ]

  -- The estimate of the compute cost, which is 0 for the demo.
  estimate_of : Workload → Prepare → Decimal → ℕ → Result Decimal
  estimate_of w q cap now =
      if text_eq w.provider (codes "demo") then ok (finite (pos 0) (pos 0)) else do
        quote ← current_quote w now
        guard (decimal_le (seconds_cost quote q.runtime_seconds) cap)
            (gateway_error "cost_limit" "Quoted compute cost exceeds the requested ceiling" 400)
        ok (seconds_cost quote q.runtime_seconds)

  -- `prepare` up to its transaction: the plan.
  unfoldable pub plan_experiment : Principal → Prepare → ℕ → Result ExperimentPlan
  unfolding registered_workload estimate_of
  plan_experiment p q now = do
    require_scope p (codes "experiments:run")
    w ← registered_workload q
    guard (g.is_schema_instance w.parameter_schema q.parameters && is_json q.parameters)
        (gateway_error "invalid_parameters" "Parameters do not match the registered schema" 400)
    cap ← cap_of (h.decimal_of_text q.max_cost_usd)
    guard
        (is_positive cap && decimal_le cap (decimal_min w.max_cost_usd g.settings.max_job_cost_usd))
        (gateway_error "cost_limit" "Cost ceiling exceeds operator policy or is zero" 400)
    guard (leb q.runtime_seconds w.max_runtime_seconds)
        (gateway_error "runtime_limit" "Runtime exceeds registered workload policy" 400)
    estimate ← estimate_of w q cap now
    ok (record {
      workload = q.workload;
      workload_manifest = w;
      parameters = q.parameters;
      runtime_seconds = q.runtime_seconds;
      max_cost_usd = q.max_cost_usd;
      estimated_compute_usd = h.decimal_str estimate;
      provider = w.provider;
    })

  -- The transaction of `prepare`.
  unfoldable pub prepare_body :
      Principal
      → Prepare
      → ℕ
      → Text
      → ExperimentPlan
      → Text
      → Store
      → Result (Option PublicRun × Store)
  prepare_body p q now new_id plan request_hash s =
      elim (find_run (has_key p.owner q.idempotency_key) s.rows) [
        | some old ↦
            if text_eq old.request_hash request_hash
            then ok (some (public_run old), s)
            else err (
                gateway_error "idempotency_conflict"
                  "Use a new idempotency key for different inputs" 409)
        | none ↦ do
          guard (ltb (count_runs (is_open p.owner) s.rows) g.settings.max_open_requests)
              (gateway_error "request_limit" "Too many unfinished experiments" 429)
          fingerprint ← digest (plan_dict g plan)
          rows ← insert_run (new_run p q now new_id plan request_hash fingerprint) s.rows
          ok (none, record s { rows = rows })
      ]

  -- `ExperimentService.prepare`, with the time and the id that it draws.
  unfoldable pub prepare : Principal → Prepare → ℕ → Text → Store → Result PublicRun × Store
  prepare p q now new_id s = elim (plan_experiment p q now) [
    | err e ↦ (err e, s)
    | ok plan ↦ elim (digest (request_dict q)) [
      | err e ↦ (err e, s)
      | ok request_hash ↦
          then_owned p new_id (transaction (prepare_body p q now new_id plan request_hash) s)
    ]
  ]
