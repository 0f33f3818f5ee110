-- ===== src/Gateway/Runs.antt =====
-- gateway/gpu_gateway/store.py: the table of runs and the control row, and what the service and the
-- worker ask of them. `Store.initialize` ran, so the control row is there.
use gpu_control.Base.{
  ℕ, ◌+◌, Bool, true, false, ◌&&◌, ◌||◌, Option, none, some, List, [], ◌∷◌, Text, text_eq, String,
  ℤ, pos, pos_part, neg_part, sub_ℕ, Result, ok, err, database_error, if◌then◌else◌,
}
use gpu_control.Decimal.{Decimal}
use gpu_control.Value.{Value}

-- The column `state`.
pub data RunState : Type 0 where
  awaiting_approval approved queued submitting submit_unknown running : RunState
  succeeded failed cancelled expired : RunState

-- `state in TERMINAL`
unfoldable pub is_final : RunState → Bool
is_final succeeded = true
is_final failed = true
is_final cancelled = true
is_final expired = true
is_final _ = false

-- What an operator registers: config.py, `Workload`.
pub record Workload : Type 0 where
  pub provider : Text
  pub max_runtime_seconds : ℕ
  pub max_cost_usd : Decimal
  pub quoted_usd_per_hour : Option Decimal
  pub quote_reference : Text
  pub quote_expires_at : ℤ
  pub parameter_schema : Value

-- The column `plan`. The manifest is that of the workload when the plan was made.
pub record ExperimentPlan : Type 0 where
  pub workload : Text
  pub workload_manifest : Workload
  pub parameters : Value
  pub runtime_seconds : ℕ
  pub max_cost_usd : Text
  pub estimated_compute_usd : Text
  pub provider : Text

pub record Run : Type 0 where
  pub id : Text
  pub owner : Text
  pub idempotency_key : Text
  pub request_hash : Text
  pub fingerprint : Text
  pub plan : ExperimentPlan
  pub state : RunState
  pub created_at : ℕ
  pub started_at : ℕ
  pub approved_until : ℕ
  pub approval_id : Text
  pub handle : Option Value
  pub result : Option Value
  pub error : String
  pub lease_until : ℕ
  pub lease_token : Text
  pub cancel_requested : Bool
  pub slot_reserved : Bool

-- The rows in the order of their insertion, and the control row.
pub record Store : Type 0 where
  pub rows : List Run
  pub active_count : ℤ
  pub worker_seen_at : ℕ

-- `Store.initialize` on an empty database
abbrev pub initialized : Store
initialized = record { rows = []; active_count = pos 0; worker_seen_at = 0 }

-- `active_count + 1` and `active_count - 1`
abbrev pub plus_one : ℤ → ℤ
plus_one a = sub_ℕ (pos_part a + 1) (neg_part a)

abbrev pub minus_one : ℤ → ℤ
minus_one a = sub_ℕ (pos_part a) (neg_part a + 1)

-- `runs.c.id == run_id`
abbrev pub has_id : Text → Run → Bool
has_id run_id r = text_eq r.id run_id

-- `runs.c.id == run_id, runs.c.owner == owner`
abbrev pub is_owned : Text → Text → Run → Bool
is_owned run_id owner r = text_eq r.id run_id && text_eq r.owner owner

-- `select(runs).where(…)`, its first row
unfoldable pub find_run : (Run → Bool) → List Run → Option Run
find_run test [] = none
find_run test (r ∷ rs) = if test r then some r else find_run test rs

-- `update(runs).where(…).values(…)`
unfoldable pub update_runs : (Run → Bool) → (Run → Run) → List Run → List Run
update_runs test change [] = []
update_runs test change (r ∷ rs) = (if test r then change r else r) ∷ update_runs test change rs

-- `select(func.count()).where(…)`
unfoldable pub count_runs : (Run → Bool) → List Run → ℕ
count_runs test [] = 0
count_runs test (r ∷ rs) = (if test r then 1 else 0) + count_runs test rs

-- The primary key and the unique constraint on the owner and the idempotency key.
abbrev pub clashes : Run → Run → Bool
clashes new old =
    text_eq old.id new.id
    || (text_eq old.owner new.owner && text_eq old.idempotency_key new.idempotency_key)

-- `insert(runs).values(…)`, which raises where a constraint is broken.
unfoldable pub insert_run : Run → List Run → Result (List Run)
insert_run new [] = ok (new ∷ [])
insert_run new (r ∷ rs) =
    let rest = insert_run new rs in
    if clashes new r
    then err (database_error "UNIQUE constraint failed")
    else (elim rest [ err e ↦ err e | ok others ↦ ok (r ∷ others) ])

-- A transaction: where its body raises, it is rolled back.
unfoldable pub transaction : {A : Type 0} → (Store → Result (A × Store)) → Store → Result A × Store
transaction body s = elim (body s) [ err e ↦ (err e, s) | ok (a, s') ↦ (ok a, s') ]

-- `Store.heartbeat`
unfoldable pub heartbeat : ℕ → Store → Store
heartbeat now s = record s { worker_seen_at = now }
