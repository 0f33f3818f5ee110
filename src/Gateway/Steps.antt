-- ===== src/Gateway/Steps.antt =====
-- The steps of a tick keep the invariant of the store, and none of them starts a run again.
use gpu_control.Base.{
  ℕ, ◌≡◌, refl, Bool, true, false, ◌||◌, inl, inr, Option, none, some, Text, text_eq, is_empty,
  Bool-cases, Option-cases, Result-cases, if◌then◌else◌,
}
use gpu_control.Host.{Host}
use gpu_control.Value.{Value}
use gpu_control.Gateway.Runs.{submit_unknown, running, Run, Store, has_id, find_run, update_runs}
use gpu_control.Gateway.Rows.{total-update_where-eq, All-update_where, Distinct-update_runs}
use gpu_control.Gateway.Deployment.{Deployment}
use gpu_control.Gateway.LifeCycle.{in_flight, Leads, stays, flies, one_move}
use gpu_control.Gateway.Evolution.{identity, Evolves-update_where}
use gpu_control.Gateway.Slots.{IsSound, IsConsistent, Keeps, Keeps-refl, slot_weight}
use gpu_control.Gateway.Leases.{finish}
use gpu_control.Gateway.Writes.{update-Keeps, finish-Keeps}
use gpu_control.Gateway.Worker.{
  Answers, Task, Ending, unconfigured, unknown_outcome, started, unreconciled, unobserved,
  still_running, ending, Phase, starting, reconciling, storing, adopting, watching, stopping,
  inspecting, settling, closing, finishing, is_durable, is_supported, is_running, is_overdue,
  advance,
}

abbrev pub task_of : Phase → Task
task_of (starting k) = k
task_of (reconciling k) = k
task_of (storing k handle) = k
task_of (adopting k handle) = k
task_of (watching k handle) = k
task_of (stopping k handle) = k
task_of (inspecting k handle cancelling) = k
task_of (settling k e) = k
task_of (closing k state error) = k
task_of (finishing k state result) = k

-- Weighs a worker that is about to start the run with this id.
abbrev pub due_weight : Text → Phase → ℕ
due_weight i (starting k) = if text_eq k.job.id i then 1 else 0
due_weight i _ = 0

abbrev pub HasToken : Phase → Type 0
HasToken p = is_empty (task_of p).job.lease_token ≡ false

-- What comes next in a tick has the token of the tick, and does not start the run.
abbrev pub Follows : Option Phase → Type 0
Follows none = Unit
Follows (some q) = HasToken q × ((i : Text) → due_weight i q ≡ 0)

ending-flies :
    (now : ℕ) (e : Ending) (q : Run)
    → in_flight q.state ≡ true
    → (in_flight (ending now e q).state ≡ true) × Leads q.state (ending now e q).state
unfolding ending
ending-flies now unconfigured q f = (f, stays)
ending-flies now unknown_outcome q f = (refl, one_move (flies q.state submit_unknown f refl))
ending-flies now started q f = (refl, one_move (flies q.state running f refl))
ending-flies now unreconciled q f = (refl, one_move (flies q.state submit_unknown f refl))
ending-flies now unobserved q f = (f, stays)
ending-flies now (still_running cancelling) q f = (refl, one_move (flies q.state running f refl))

ending-identity :
    (now : ℕ) (e : Ending) (q : Run)
    → (identity q ≡ identity (ending now e q))
      × ((ending now e q).slot_reserved ≡ q.slot_reserved)
      × ((ending now e q).approval_id ≡ q.approval_id)
unfolding ending
ending-identity now unconfigured q = (refl, refl, refl)
ending-identity now unknown_outcome q = (refl, refl, refl)
ending-identity now started q = (refl, refl, refl)
ending-identity now unreconciled q = (refl, refl, refl)
ending-identity now unobserved q = (refl, refl, refl)
ending-identity now (still_running cancelling) q = (refl, refl, refl)

-- A write of handles leaves the life cycle alone.
handles-Keeps :
    (limit : ℕ) (s : Store) (test : Run → Bool) (g : Run → Option Value)
    → IsConsistent limit s
    → Keeps limit s (record s { rows = update_runs test (λ r. record r { handle = g r }) s.rows })
handles-Keeps limit s test g c =
    let f = λ (r : Run). record r { handle = g r } in
    let count = total-update_where-eq slot_weight test f s.rows (λ q. refl) in
    record {
      consistent = record {
        distinct = Distinct-update_runs test f s.rows (λ q. refl) c.distinct;
        sound =
            All-update_where IsSound test f s.rows
              (λ q _ sound. record {
                slot = sound.slot;
                lease = sound.lease;
                approval = sound.approval;
              })
              c.sound;
        slots = rw count c.slots;
        within = rw count c.within;
      };
      evolves =
          Evolves-update_where IsSound test f s.rows c.sound
            (λ q _ _. record { kept = refl; path = stays });
    }

module _ ⦃h : Host⦄ (g : Deployment) where
  abbrev limit : ℕ
  limit = g.settings.max_inflight

  pub advance-Keeps :
      (p : Phase) (a : Answers) (s : Store)
      → IsConsistent limit s
      → HasToken p
      → Keeps limit s (advance g p a s).1 × Follows (advance g p a s).0
  unfolding advance
  advance-Keeps (starting k) a s c drawn = elim (Result-cases a.start) [
    | inr (x, raised) ↦ rw (raised, advance) (Keeps-refl limit s c, (drawn, λ i. refl))
    | inl (v, returned) ↦ elim (Bool-cases (is_durable v)) [
      | inl good ↦ rw (returned, good, advance) (Keeps-refl limit s c, (drawn, λ i. refl))
      | inr bad ↦ rw (returned, bad, advance) (Keeps-refl limit s c, (drawn, λ i. refl))
    ]
  ]
  advance-Keeps (storing k handle) a s c drawn = (
    handles-Keeps limit s (has_id k.job.id)
        (λ r. elim r.handle [ none ↦ some handle | some kept ↦ some kept ]) c,
    (drawn, λ i. refl),
  )
  advance-Keeps (reconciling k) a s c drawn = elim (Result-cases a.reconcile) [
    | inr (x, raised) ↦ rw (raised, advance) (Keeps-refl limit s c, (drawn, λ i. refl))
    | inl (none, returned) ↦ rw (returned, advance) (Keeps-refl limit s c, (drawn, λ i. refl))
    | inl (some v, returned) ↦ rw (returned, advance) (Keeps-refl limit s c, (drawn, λ i. refl))
  ]
  advance-Keeps (adopting k handle) a s c drawn = (
    update-Keeps limit s k.job (λ r. record r { handle = some handle; state = running; error = "" })
        c drawn (λ q. (refl, refl, refl)) (λ q f. (refl, one_move (flies q.state running f refl))),
    (drawn, λ i. refl),
  )
  advance-Keeps (watching k handle) a s c drawn =
      elim (Option-cases (find_run (has_id k.job.id) s.rows)) [
        | inl missing ↦ rw (missing, advance) (Keeps-refl limit s c, (drawn, λ i. refl))
        | inr (latest, at) ↦ elim (Bool-cases (latest.cancel_requested || is_overdue g k)) [
          | inl yes' ↦ rw (at, yes', advance) (Keeps-refl limit s c, (drawn, λ i. refl))
          | inr no' ↦ rw (at, no', advance) (Keeps-refl limit s c, (drawn, λ i. refl))
        ]
      ]
  advance-Keeps (stopping k handle) a s c drawn = elim (Result-cases a.cancel) [
    | inr (x, raised) ↦ rw (raised, advance) (Keeps-refl limit s c, (drawn, λ i. refl))
    | inl (x, returned) ↦ rw (returned, advance) (Keeps-refl limit s c, (drawn, λ i. refl))
  ]
  advance-Keeps (inspecting k handle cancelling) a s c drawn = elim (Result-cases a.inspect) [
    | inr (x, raised) ↦ rw (raised, advance) (Keeps-refl limit s c, (drawn, λ i. refl))
    | inl (o, returned) ↦ elim (Bool-cases (is_supported o.state)) [
      | inr unsupported ↦
          rw (returned, unsupported, advance) (Keeps-refl limit s c, (drawn, λ i. refl))
      | inl supported ↦ elim (Bool-cases (is_running o.state)) [
        | inl runs ↦
            rw (returned, supported, runs, advance) (Keeps-refl limit s c, (drawn, λ i. refl))
        | inr ended ↦
            rw (returned, supported, ended, advance) (Keeps-refl limit s c, (drawn, λ i. refl))
      ]
    ]
  ]
  advance-Keeps (settling k e) a s c drawn = (
    update-Keeps limit s k.job (ending k.now e) c drawn (ending-identity k.now e)
        (ending-flies k.now e),
    tt,
  )
  advance-Keeps (closing k state error) a s c drawn =
      elim (Result-cases (finish g.settings g.json_bytes k.job state none error s)) [
        | inr (x, raised) ↦ rw (raised, advance) (Keeps-refl limit s c, tt)
        | inl (s', returned) ↦
            rw (returned, advance)
              (
                finish-Keeps limit g.settings g.json_bytes k.job state none error s s' c drawn
                    returned,
                tt,
              )
      ]
  advance-Keeps (finishing k state result) a s c drawn =
      elim (Result-cases (finish g.settings g.json_bytes k.job state result "" s)) [
        | inr (x, raised) ↦ rw (raised, advance) (Keeps-refl limit s c, (drawn, λ i. refl))
        | inl (s', returned) ↦
            rw (returned, advance)
              (
                finish-Keeps limit g.settings g.json_bytes k.job state result "" s s' c drawn
                    returned,
                tt,
              )
      ]
