-- ===== src/Observation.antt =====
-- src/gpu_control/lifecycle.py: observations of a job, and what a next one may say.
pub mod Chains
pub mod Restored
use gpu_control.Base.{
  ℕ, String, Bool, true, false, ◌&&◌, ◌||◌, not, Option, none, some, List, [], ◌∷◌, ◌++◌, Text,
  codes, ℤ, pos, int_eq, Result, ok, err, Error, lifecycle, guard, ◌>>=◌, ◌>>◌, if◌then◌else◌,
}
use gpu_control.Value.{
  Value, Fields, text, int, object, end, entry, is_nonblank, same_text, item, require_exact_keys,
}
use gpu_control.Host.{Host, DateTime, before, not_after}
use gpu_control.Clock.{parse_utc}
use gpu_control.Lifecycle.{
  JobState, CleanupState, not_started, completed, is_terminal, same_cleanup, state_value,
  cleanup_value, state_of, cleanup_of, job_step_allowed, cleanup_step_allowed,
}
use gpu_control.Receipt.{
  SubmissionReceipt, validate_receipt, validate_identity, parse_schema_version,
}

pub record JobObservation : Type 0 where
  pub provider : Value
  pub provider_job_id : Value
  pub plan_fingerprint : Value
  pub state : JobState
  pub cleanup_state : CleanupState
  pub observed_at_utc : Value
  pub status_reference : Value
  pub schema_version : ℤ

-- `JobObservation.terminal`
abbrev pub terminal : JobObservation → Bool
terminal o = is_terminal o.state

-- `JobObservation.finalized`
abbrev pub finalized : JobObservation → Bool
finalized o = is_terminal o.state && same_cleanup o.cleanup_state completed

-- `JobObservation.to_dict`
unfoldable pub observation_to_dict : JobObservation → Fields
observation_to_dict o = entry (codes "provider") o.provider (
    entry (codes "provider_job_id") o.provider_job_id (
      entry (codes "plan_fingerprint") o.plan_fingerprint (
        entry (codes "state") (text (state_value o.state)) (
          entry (codes "cleanup_state") (text (cleanup_value o.cleanup_state)) (
            entry (codes "observed_at_utc") o.observed_at_utc (
              entry (codes "status_reference") o.status_reference
                (entry (codes "schema_version") (int o.schema_version) end)))))))

abbrev observation_keys : List Text
observation_keys =
    codes "provider"
    ∷ codes "provider_job_id"
    ∷ codes "plan_fingerprint"
    ∷ codes "state"
    ∷ codes "cleanup_state"
    ∷ codes "observed_at_utc"
    ∷ codes "status_reference"
    ∷ codes "schema_version"
    ∷ []

module _ ⦃h : Host⦄ where
  -- `JobObservation.validate_shape`
  unfoldable pub validate_observation_shape : JobObservation → Result DateTime
  unfolding validate_identity
  validate_observation_shape o = do
    guard (int_eq o.schema_version (pos 1)) (lifecycle "unsupported job observation schema_version")
    validate_identity o.provider o.provider_job_id o.plan_fingerprint
    guard (is_nonblank o.status_reference) (lifecycle "status_reference is required")
    guard (is_terminal o.state || same_cleanup o.cleanup_state not_started)
        (lifecycle "cleanup cannot begin before the provider job is terminal")
    parse_utc lifecycle o.observed_at_utc "observed_at_utc"

  unfoldable pub observation_fingerprint : JobObservation → Text
  observation_fingerprint o =
      codes "sha256:" ++ h.sha256_hex (h.json_dumps (object (observation_to_dict o)))

  abbrev state_or_fail : Value → Result JobState
  state_or_fail v = elim (state_of v) [
    | none ↦ err (lifecycle "state is not a supported JobState")
    | some s ↦ ok s
  ]

  abbrev cleanup_or_fail : Value → Result CleanupState
  cleanup_or_fail v = elim (cleanup_of v) [
    | none ↦ err (lifecycle "cleanup_state is not a supported CleanupState")
    | some s ↦ ok s
  ]

  restore_observation : Fields → Result JobObservation
  unfolding parse_schema_version
  restore_observation payload = do
    require_exact_keys lifecycle payload observation_keys "job observation"
    schema_version ← parse_schema_version (item "schema_version" payload) "job observation"
    state ← state_or_fail (item "state" payload)
    cleanup_state ← cleanup_or_fail (item "cleanup_state" payload)
    let observation : JobObservation = record {
      provider = item "provider" payload;
      provider_job_id = item "provider_job_id" payload;
      plan_fingerprint = item "plan_fingerprint" payload;
      state = state;
      cleanup_state = cleanup_state;
      observed_at_utc = item "observed_at_utc" payload;
      status_reference = item "status_reference" payload;
      schema_version = schema_version;
    }
    _ ← validate_observation_shape observation
    ok observation

  -- `JobObservation.from_dict`
  unfoldable pub observation_from_dict : Value → Result JobObservation
  unfolding restore_observation
  observation_from_dict (object payload) = restore_observation payload
  observation_from_dict _ = err (lifecycle "job observation must be an object")

  -- `validate_observation`
  unfoldable pub validate_observation : SubmissionReceipt → JobObservation → Result (Unit {0})
  validate_observation r o = do
    submitted_at ← validate_receipt r
    observed_at ← validate_observation_shape o
    guard (same_text o.provider r.provider)
        (lifecycle "observation provider does not match submission receipt")
    guard (same_text o.provider_job_id r.provider_job_id)
        (lifecycle "observation provider_job_id does not match submission receipt")
    guard (same_text o.plan_fingerprint r.plan_fingerprint)
        (lifecycle "observation plan_fingerprint does not match submission receipt")
    guard (not_after submitted_at observed_at) (lifecycle "observation cannot predate submission")

  -- `validate_observation_transition`
  unfoldable pub validate_observation_transition :
      JobObservation → JobObservation → Result (Unit {0})
  validate_observation_transition previous current = do
    previous_at ← validate_observation_shape previous
    current_at ← validate_observation_shape current
    guard (same_text current.provider previous.provider)
        (lifecycle "provider changed between observations")
    guard (same_text current.provider_job_id previous.provider_job_id)
        (lifecycle "provider_job_id changed between observations")
    guard (same_text current.plan_fingerprint previous.plan_fingerprint)
        (lifecycle "plan_fingerprint changed between observations")
    guard (not_after previous_at current_at) (lifecycle "observation time moved backwards")
    guard (job_step_allowed previous.state current.state) (lifecycle "illegal job-state transition")
    guard (cleanup_step_allowed previous.cleanup_state current.cleanup_state)
        (lifecycle "illegal cleanup-state transition")
