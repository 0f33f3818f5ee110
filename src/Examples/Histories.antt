-- ===== src/Examples/Histories.antt =====
-- The theorems of the gateway at that history.
use gpu_control.Base.{
  ◌≤◌, ◌≡◌, refl, true, false, inl, none, some, List, [], ◌∷◌, codes, pos, ok, err, All,
  if◌then◌else◌, is_empty, text_eq,
}
use gpu_control.Gateway.Runs.{Run, Store, awaiting_approval, count_runs}
use gpu_control.Gateway.Rows.{Among}
use gpu_control.Gateway.Deployment.{PublicRun, public_run, request_dict, digest}
use gpu_control.Gateway.Admission.{plan_experiment, prepare}
use gpu_control.Gateway.Evolution.{Evolves}
use gpu_control.Gateway.Slots.{occupies}
use gpu_control.Gateway.Requests.{prepares, approves, submits}
use gpu_control.Gateway.Leases.{Job, is_queued, is_claimable, claimed, claim}
use gpu_control.Gateway.Worker.{Task, starting}
use gpu_control.Gateway.System.{Event, served, claims, first_world, pick, run, is_drawn_event}
use gpu_control.Gateway.Safety.{times}
use gpu_control.Gateway.Guarantees.{slots_bounded, started_once, approved_first, rows_evolve}
use gpu_control.Gateway.LifeCycle.{Leads}
use gpu_control.Gateway.Ready.{IsReady}
use gpu_control.Gateway.Readiness.{starts_as_approved}
use gpu_control.Gateway.Fairness.{Precedes, claim_takes_soonest}
use gpu_control.Gateway.Keys.{conflict}
use gpu_control.Gateway.Idempotence.{prepare_again}
use gpu_control.Examples.World.{world, sixty_four}
use gpu_control.Examples.Service.{
  running_gateway, deployment, owner, experiment, admitted, worked, whole, admitted_drawn,
  worked_drawn, whole_drawn, plan, queued_run,
}

slots_bounded_example :
    let s = (run deployment first_world whole).store in
    (s.active_count ≡ pos (count_runs (λ r. occupies r.state) s.rows))
    × (count_runs (λ r. occupies r.state) s.rows ≤ 1)
slots_bounded_example = slots_bounded deployment whole whole_drawn

started_once_example : times (codes "r") (run deployment first_world whole).starts ≤ 1
started_once_example = started_once deployment whole (codes "r") whole_drawn

rows_evolve_example :
    Evolves
      (run deployment first_world admitted).store.rows
      (run deployment (run deployment first_world admitted) worked).store.rows
rows_evolve_example = rows_evolve deployment admitted worked admitted_drawn worked_drawn

queued-Among : Among queued_run (run deployment first_world admitted).store.rows
unfolding running_gateway
queued-Among = inl refl

approved_first_example : is_empty queued_run.approval_id ≡ false
approved_first_example =
    approved_first deployment admitted queued_run admitted_drawn queued-Among refl

abbrev job : Job
job = record { row = claimed 40 (codes "s") queued_run; was_queued = true }

abbrev task : Task
task = record { job = claimed 40 (codes "s") queued_run; now = 41 }

abbrev store : Store
store = record { rows = queued_run ∷ []; active_count = pos 1; worker_seen_at = 0 }

-- The claim has just been made.
abbrev claimed_once : List Event
claimed_once =
    served (prepares owner experiment 10 (codes "r"))
    ∷ served (approves owner (codes "r") (sixty_four b'a') 20 (codes "a"))
    ∷ served (submits owner (codes "r") 30)
    ∷ claims 40 41 (codes "s")
    ∷ []

claimed_once_drawn : All (λ e. is_drawn_event e ≡ true) claimed_once
claimed_once_drawn = (refl, (refl, (refl, (refl, tt))))

about_to_start : pick 0 (run deployment first_world claimed_once).ticks ≡ some (starting task, [])
unfolding running_gateway
about_to_start = refl

starts_as_approved_example :
    IsReady deployment (run deployment first_world claimed_once).store.rows task
starts_as_approved_example =
    starts_as_approved deployment claimed_once 0 task [] claimed_once_drawn about_to_start

claim_takes_soonest_example :
    (r : Run) × Among r store.rows
    × (is_claimable 40 r ≡ true)
    × Precedes r queued_run
    × ((claim 40 (codes "s") store).0
        ≡ some (record { row = claimed 40 (codes "s") r; was_queued = is_queued r.state }))
claim_takes_soonest_example = claim_takes_soonest 40 (codes "s") store queued_run (inl refl) refl

abbrev prepared_run : PublicRun
prepared_run = record {
  id = codes "r";
  state = awaiting_approval;
  created_at = 10;
  fingerprint = sixty_four b'a';
  plan = plan;
  result = none;
  error = "";
  cancel_requested = false;
  approved_until = 0;
}

prepared_once :
    (prepare deployment owner experiment 10 (codes "r") (run deployment first_world []).store).0
    ≡ ok prepared_run
unfolding running_gateway
prepared_once = refl

hashed : digest (request_dict experiment) ≡ ok (sixty_four b'a')
unfolding running_gateway
hashed = refl

planned_again : plan_experiment deployment owner experiment 50 ≡ ok plan
unfolding running_gateway
planned_again = refl

abbrev onward : List Event
onward =
    served (approves owner (codes "r") (sixty_four b'a') 20 (codes "a"))
    ∷ served (submits owner (codes "r") 30)
    ∷ worked

prepare_again_example :
    let s =
      (run deployment
        (run deployment first_world [])
        (served (prepares owner experiment 10 (codes "r")) ∷ onward)).store in
    (row : Run) × Among row s.rows
    × (row.id ≡ codes "r")
    × (row.owner ≡ codes "u")
    × (row.fingerprint ≡ sixty_four b'a')
    × (row.plan ≡ plan)
    × Leads awaiting_approval row.state
    × (prepare deployment owner experiment 50 (codes "x") s ≡ (
      if text_eq (sixty_four b'a') (sixty_four b'a') then ok (public_run row) else err conflict,
      s,
    ))
prepare_again_example =
    prepare_again deployment [] onward owner experiment experiment 10 50 (codes "r") (codes "x")
      (sixty_four b'a') (sixty_four b'a') prepared_run plan tt whole_drawn prepared_once hashed refl
      hashed planned_again
