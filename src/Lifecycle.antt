-- ===== src/Lifecycle.antt =====
-- src/gpu_control/lifecycle.py: the states of a job and of its cleanup, and their transitions.
pub mod Order
use gpu_control.Base.{
  ◌≡◌, Bool, true, false, ◌||◌, not, Option, none, some, String, Text, codes, text_eq,
  if◌then◌else◌,
}
use gpu_control.Value.{Value, text}

pub data JobState : Type 0 where
  submitted running succeeded failed cancelled timed_out : JobState

pub data CleanupState : Type 0 where
  not_started pending completed cleanup_failed : CleanupState

-- `state.value`
abbrev pub state_value : JobState → Text
state_value submitted = codes "submitted"
state_value running = codes "running"
state_value succeeded = codes "succeeded"
state_value failed = codes "failed"
state_value cancelled = codes "cancelled"
state_value timed_out = codes "timed_out"

abbrev pub cleanup_value : CleanupState → Text
cleanup_value not_started = codes "not_started"
cleanup_value pending = codes "pending"
cleanup_value completed = codes "completed"
cleanup_value cleanup_failed = codes "failed"

state_of_text : Text → Option JobState
state_of_text s =
    if text_eq s (codes "submitted")
    then some submitted
    else if text_eq s (codes "running")
    then some running
    else if text_eq s (codes "succeeded")
    then some succeeded
    else if text_eq s (codes "failed")
    then some failed
    else if text_eq s (codes "cancelled")
    then some cancelled
    else if text_eq s (codes "timed_out")
    then some timed_out
    else none

-- `JobState(v)`, `none` for a TypeError or a ValueError.
unfoldable pub state_of : Value → Option JobState
unfolding state_of_text text_eq
state_of (text s) = state_of_text s
state_of _ = none

cleanup_of_text : Text → Option CleanupState
cleanup_of_text s =
    if text_eq s (codes "not_started")
    then some not_started
    else if text_eq s (codes "pending")
    then some pending
    else if text_eq s (codes "completed")
    then some completed
    else if text_eq s (codes "failed")
    then some cleanup_failed
    else none

-- `CleanupState(v)`
unfoldable pub cleanup_of : Value → Option CleanupState
unfolding cleanup_of_text text_eq
cleanup_of (text s) = cleanup_of_text s
cleanup_of _ = none

-- `state in _TERMINAL_JOB_STATES`
abbrev pub is_terminal : JobState → Bool
is_terminal submitted = false
is_terminal running = false
is_terminal succeeded = true
is_terminal failed = true
is_terminal cancelled = true
is_terminal timed_out = true

-- `a is b` for members of the two enumerations.
abbrev pub same_state : JobState → JobState → Bool
same_state submitted submitted = true
same_state running running = true
same_state succeeded succeeded = true
same_state failed failed = true
same_state cancelled cancelled = true
same_state timed_out timed_out = true
same_state _ _ = false

abbrev pub same_cleanup : CleanupState → CleanupState → Bool
same_cleanup not_started not_started = true
same_cleanup pending pending = true
same_cleanup completed completed = true
same_cleanup cleanup_failed cleanup_failed = true
same_cleanup _ _ = false

-- `current in _ALLOWED_JOB_TRANSITIONS[previous]`
unfoldable pub job_step_allowed : JobState → JobState → Bool
job_step_allowed submitted _ = true
job_step_allowed running submitted = false
job_step_allowed running _ = true
job_step_allowed succeeded succeeded = true
job_step_allowed failed failed = true
job_step_allowed cancelled cancelled = true
job_step_allowed timed_out timed_out = true
job_step_allowed _ _ = false

-- `current in _ALLOWED_CLEANUP_TRANSITIONS[previous]`
unfoldable pub cleanup_step_allowed : CleanupState → CleanupState → Bool
cleanup_step_allowed not_started _ = true
cleanup_step_allowed pending not_started = false
cleanup_step_allowed pending _ = true
cleanup_step_allowed completed completed = true
cleanup_step_allowed completed _ = false
cleanup_step_allowed cleanup_failed not_started = false
cleanup_step_allowed cleanup_failed _ = true
