-- ===== src/Lifecycle/Order.antt =====
-- The transition tables of lifecycle.py as orders.
use gpu_control.Base.{◌≡◌, refl, ◌≢◌, true, some, arith}
use gpu_control.Value.{text}
use gpu_control.Lifecycle.{
  JobState, submitted, running, succeeded, failed, cancelled, timed_out, CleanupState, not_started,
  pending, completed, cleanup_failed, is_terminal, job_step_allowed, cleanup_step_allowed, state_of,
  cleanup_of, state_value, cleanup_value,
}

-- The tables are reflexive and transitive: what may be reached over several observations may be
-- reached in one.
pub job_step_trans :
    (a b c : JobState)
    → job_step_allowed a b ≡ true
    → job_step_allowed b c ≡ true
    → job_step_allowed a c ≡ true
unfolding job_step_allowed
job_step_trans a b c h k = ground arith

pub job_step_refl : (a : JobState) → job_step_allowed a a ≡ true
unfolding job_step_allowed
job_step_refl a = ground arith

pub cleanup_step_trans :
    (a b c : CleanupState)
    → cleanup_step_allowed a b ≡ true
    → cleanup_step_allowed b c ≡ true
    → cleanup_step_allowed a c ≡ true
unfolding cleanup_step_allowed
cleanup_step_trans a b c h k = ground arith

pub cleanup_step_refl : (a : CleanupState) → cleanup_step_allowed a a ≡ true
unfolding cleanup_step_allowed
cleanup_step_refl a = ground arith

-- A terminal state and a completed cleanup are never left.
pub job_step_terminal :
    (a b : JobState) → job_step_allowed a b ≡ true → is_terminal a ≡ true → b ≡ a
unfolding job_step_allowed
job_step_terminal a b h t = ground arith

pub cleanup_step_completed :
    (b : CleanupState) → cleanup_step_allowed completed b ≡ true → b ≡ completed
unfolding cleanup_step_allowed
cleanup_step_completed b h = ground arith

-- Once begun, a cleanup is not undone.
pub cleanup_step_started :
    (a b : CleanupState) → cleanup_step_allowed a b ≡ true → a ≢ not_started → b ≢ not_started
unfolding cleanup_step_allowed
cleanup_step_started a b h n = ground arith

pub state_of-state_value : (s : JobState) → state_of (text (state_value s)) ≡ some s
unfolding state_of
state_of-state_value submitted = refl
state_of-state_value running = refl
state_of-state_value succeeded = refl
state_of-state_value failed = refl
state_of-state_value cancelled = refl
state_of-state_value timed_out = refl

pub cleanup_of-cleanup_value : (s : CleanupState) → cleanup_of (text (cleanup_value s)) ≡ some s
unfolding cleanup_of
cleanup_of-cleanup_value not_started = refl
cleanup_of-cleanup_value pending = refl
cleanup_of-cleanup_value completed = refl
cleanup_of-cleanup_value cleanup_failed = refl
