-- ===== src/Examples/Service.antt =====
-- A gateway with one workload of the demo provider, and the history of one run from its plan to its
-- result.
use gpu_control.Base.{
  ℕ, ◌≡◌, refl, true, false, none, some, List, [], ◌∷◌, codes, pos, ok, All, map, text_eq, strip,
}
use gpu_control.Decimal.{finite, decimal_le, decimal_min}
use gpu_control.Value.{text, object, entry, end, member}
use gpu_control.Gateway.Runs.{
  Workload, ExperimentPlan, Run, succeeded, queued, is_final, count_runs, find_run, update_runs,
  insert_run, transaction,
}
use gpu_control.Gateway.Deployment.{
  Principal, Prepare, Deployment, public_run, require_scope, registered, find_workload, is_json,
  are_json, is_json_object, request_dict, digest, plan_dict,
}
use gpu_control.Gateway.Admission.{
  seconds_cost, then_owned, new_run, plan_experiment, prepare_body, prepare,
}
use gpu_control.Gateway.Service.{
  is_submitted, is_approved, is_waiting, approve_body, approve, submit_body, submit, cancel_body,
  cancel,
}
use gpu_control.Gateway.Requests.{prepares, approves, submits, serve}
use gpu_control.Gateway.Leases.{earliest, claimed_state, claim, update, kept_result, finish}
use gpu_control.Gateway.Worker.{
  Answers, ending, has_backend, begin_submission, begin, advance, complete,
}
use gpu_control.Gateway.System.{
  Event, served, claims, advances, crashes, first_world, pick, called, claim_step, tick_step, step,
  run, is_drawn_event,
}
use gpu_control.Examples.World.{world, shown, sixty_four}

unfoldable pub running_gateway : ℕ
unfolding world text_eq strip decimal_le decimal_min member find_run update_runs insert_run
    transaction count_runs is_final public_run require_scope registered find_workload is_json
    are_json is_json_object request_dict digest plan_dict seconds_cost then_owned new_run
    plan_experiment prepare_body prepare is_submitted is_approved is_waiting approve_body approve
    submit_body submit cancel_body cancel serve earliest claimed_state claim update kept_result
    finish ending has_backend begin_submission begin advance complete pick called claim_step
    tick_step step run
running_gateway = 0

abbrev demo : Workload
demo = record {
  provider = codes "demo";
  max_runtime_seconds = 600;
  max_cost_usd = finite (pos 5) (pos 0);
  quoted_usd_per_hour = none;
  quote_reference = [];
  quote_expires_at = pos 0;
  parameter_schema = object end;
}

abbrev pub deployment : Deployment
deployment = record {
  settings = record {
    enable_modal = false;
    enable_runpod_bridge = false;
    runpod_factory = [];
    max_inflight = 1;
    approval_ttl_seconds = 300;
    max_output_bytes = 1000;
    max_job_cost_usd = finite (pos 5) (pos 0);
    max_open_requests = 3;
  };
  workloads = (codes "demo", demo) ∷ [];
  is_schema_instance = λ s v. true;
  manifest_dump = λ w. text (codes "demo");
  json_bytes = λ v. 10;
}

abbrev pub owner : Principal
owner = record {
  owner = codes "u";
  scopes = codes "experiments:run" ∷ codes "experiments:cancel" ∷ [];
  browser = true;
}

abbrev pub experiment : Prepare
experiment = record {
  workload = codes "demo";
  parameters = object end;
  runtime_seconds = 60;
  max_cost_usd = shown (finite (pos 1) (pos 0));
  idempotency_key = codes "key-0001";
}

abbrev answers : Answers
answers = record {
  start = ok (object (entry (codes "id") (text (codes "r")) end));
  reconcile = ok none;
  cancel = ok tt;
  inspect = ok (record { state = succeeded; result = some (object end) });
}

abbrev pub admitted : List Event
admitted =
    served (prepares owner experiment 10 (codes "r"))
    ∷ served (approves owner (codes "r") (sixty_four b'a') 20 (codes "a"))
    ∷ served (submits owner (codes "r") 30)
    ∷ []

-- The worker that starts the run dies behind the call, and another one recovers it.
abbrev pub worked : List Event
worked =
    claims 40 41 (codes "s")
    ∷ advances 0 answers
    ∷ advances 0 answers
    ∷ crashes 0
    ∷ claims 160 160 (codes "t")
    ∷ advances 0 answers
    ∷ advances 0 answers
    ∷ advances 0 answers
    ∷ []

abbrev pub whole : List Event
whole =
    served (prepares owner experiment 10 (codes "r"))
    ∷ served (approves owner (codes "r") (sixty_four b'a') 20 (codes "a"))
    ∷ served (submits owner (codes "r") 30)
    ∷ worked

pub admitted_drawn : All (λ e. is_drawn_event e ≡ true) admitted
admitted_drawn = (refl, (refl, (refl, tt)))

pub worked_drawn : All (λ e. is_drawn_event e ≡ true) worked
worked_drawn = (refl, (refl, (refl, (refl, (refl, (refl, (refl, (refl, tt))))))))

pub whole_drawn : All (λ e. is_drawn_event e ≡ true) whole
whole_drawn =
    (refl, (refl, (refl, (refl, (refl, (refl, (refl, (refl, (refl, (refl, (refl, tt)))))))))))

abbrev pub plan : ExperimentPlan
plan = record {
  workload = codes "demo";
  workload_manifest = demo;
  parameters = object end;
  runtime_seconds = 60;
  max_cost_usd = shown (finite (pos 1) (pos 0));
  estimated_compute_usd = world.decimal_str (finite (pos 0) (pos 0));
  provider = codes "demo";
}

abbrev pub queued_run : Run
queued_run = record {
  id = codes "r";
  owner = codes "u";
  idempotency_key = codes "key-0001";
  request_hash = sixty_four b'a';
  fingerprint = sixty_four b'a';
  plan = plan;
  state = queued;
  created_at = 10;
  started_at = 0;
  approved_until = 320;
  approval_id = codes "a";
  handle = none;
  result = none;
  error = "";
  lease_until = 0;
  lease_token = [];
  cancel_requested = false;
  slot_reserved = true;
}

-- The run waits in the queue behind its admission.
queue_reached : (run deployment first_world admitted).store.rows ≡ queued_run ∷ []
unfolding running_gateway
queue_reached = refl

-- The whole history ends with the slot given back, one start and a success.
success_reached :
    ((run deployment first_world whole).store.active_count ≡ pos 0)
    × ((run deployment first_world whole).starts ≡ codes "r" ∷ [])
    × (map (λ (r : Run). r.state) (run deployment first_world whole).store.rows ≡ succeeded ∷ [])
unfolding running_gateway
success_reached = (refl, refl, refl)
