-- ===== src/Gateway/Leases.antt =====
-- gateway/gpu_gateway/worker.py: the transactions of the worker on the store. A claim leases a run to
-- one worker; a later write of that worker counts only while its token is still in the row.
use gpu_control.Base.{
  ℕ, ◌+◌, ◌*◌, Bool, true, false, ◌&&◌, ◌||◌, not, Option, none, some, List, [], ◌∷◌, Text, text_eq,
  codes, String, ltb, leb, ◌==◌, Result, ok, err, value_error, database_error, guard, ◌>>=◌, ◌>>◌,
  if◌then◌else◌,
}
use gpu_control.Value.{Value, flag, text, object, end, entry}
use gpu_control.Gateway.Runs.{
  RunState, queued, submitting, submit_unknown, running, is_final, Run, Store, minus_one, has_id,
  find_run, update_runs,
}
use gpu_control.Gateway.Deployment.{Settings, is_json}

-- A run that a worker has claimed: the row as it is written, and whether it was queued before.
pub record Job : Type 0 where
  pub row : Run
  pub was_queued : Bool

-- The states that a claim asks for.
abbrev pub is_active : RunState → Bool
is_active queued = true
is_active submitting = true
is_active submit_unknown = true
is_active running = true
is_active _ = false

abbrev pub is_queued : RunState → Bool
is_queued queued = true
is_queued _ = false

abbrev pub is_claimable : ℕ → Run → Bool
is_claimable now r = is_active r.state && leb r.lease_until now

-- `order_by(runs.c.lease_until, runs.c.created_at)`
abbrev pub is_sooner : Run → Run → Bool
is_sooner q r =
    ltb q.lease_until r.lease_until
    || ((q.lease_until == r.lease_until) && ltb q.created_at r.created_at)

-- The first of the rows that a claim asks for.
unfoldable pub earliest : ℕ → List Run → Option Run
earliest now [] = none
earliest now (r ∷ rs) =
    let rest = earliest now rs in
    if is_claimable now r
    then (elim rest [ none ↦ some r | some q ↦ if is_sooner q r then some q else some r ])
    else rest

-- The changes of a claim.
unfoldable pub claimed_state : RunState → RunState
claimed_state queued = submitting
claimed_state submitting = submit_unknown
claimed_state state = state

abbrev pub claimed : ℕ → Text → Run → Run
claimed now token r = record r {
  state = claimed_state r.state;
  started_at = if is_queued r.state then now else r.started_at;
  lease_until = now + 120;
  lease_token = token;
}

-- `Worker.claim`, with the time and the token that it draws.
unfoldable pub claim : ℕ → Text → Store → Option Job × Store
claim now token s = elim (earliest now s.rows) [
  | none ↦ (none, record s { worker_seen_at = now })
  | some r ↦ (
    some (record { row = claimed now token r; was_queued = is_queued r.state }),
    record s { worker_seen_at = now; rows = update_runs (has_id r.id) (claimed now token) s.rows },
  )
]

-- `Worker.update` with the changes of one of its calls.
abbrev pub holds_lease : Run → Run → Bool
holds_lease job r = text_eq r.id job.id && text_eq r.lease_token job.lease_token

unfoldable pub update : Run → (Run → Run) → Store → Store
update job change s = record s { rows = update_runs (holds_lease job) change s.rows }

-- A result that is too large is replaced.
abbrev pub omitted : Value
omitted = object (
    entry (codes "result_omitted") (flag true)
      (entry (codes "reason") (text (codes "result_size_limit")) end))

module _ (settings : Settings) (json_bytes : Value → ℕ) where
  unfoldable pub kept_result : Option Value → Result (Option Value)
  kept_result none = ok none
  kept_result (some v) =
      if is_json v
      then ok (some (if ltb (settings.max_output_bytes * 3) (json_bytes v) then omitted else v))
      else err (value_error "Out of range float values are not JSON compliant")

  -- `Worker.finish`
  unfoldable pub finish : Run → RunState → Option Value → String → Store → Result Store
  finish job state result error s = do
    guard (is_final state) (value_error "Invalid terminal state")
    kept ← kept_result result
    row ← elim (find_run (has_id job.id) s.rows) [
      | none ↦ err (database_error "No row was found when one was required")
      | some r ↦ ok r
    ]
    ok (
        if not (text_eq row.lease_token job.lease_token) || is_final row.state
        then s
        else record s {
          active_count = if row.slot_reserved then minus_one s.active_count else s.active_count;
          rows =
              update_runs (has_id job.id)
                (λ r. record r {
                  state = state;
                  result = kept;
                  error = error;
                  slot_reserved = false;
                  lease_until = 0;
                  lease_token = [];
                })
                s.rows;
        })
