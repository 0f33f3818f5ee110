-- ===== src/Observation/Restored.antt =====
-- An observation survives storage as a dictionary.
use gpu_control.Base.{true, ◌≡◌, pos, int_eq, ok, arith}
use gpu_control.Value.{object, as_int, item, require_exact_keys}
use gpu_control.Host.{Host, DateTime}
use gpu_control.Lifecycle.Order.{state_of-state_value, cleanup_of-cleanup_value}
use gpu_control.Observation.{
  JobObservation, validate_observation_shape, observation_to_dict, observation_from_dict,
}

module _ ⦃h : Host⦄ where
  -- The schema version of a valid observation is 1.
  validate_observation_shape-version :
      (o : JobObservation) (d : DateTime)
      → validate_observation_shape o ≡ ok d
      → int_eq o.schema_version (pos 1) ≡ true
  unfolding validate_observation_shape
  validate_observation_shape-version o d e = ground arith

  -- A valid observation, stored with `to_dict` and restored with `from_dict`, is the same
  -- observation.
  pub observation_from_dict-observation_to_dict :
      (o : JobObservation) (d : DateTime)
      → validate_observation_shape o ≡ ok d
      → observation_from_dict (object (observation_to_dict o)) ≡ ok o
  unfolding observation_from_dict observation_to_dict item require_exact_keys as_int
  observation_from_dict-observation_to_dict o d e = ground (
    arith,
    validate_observation_shape-version o d,
    state_of-state_value o.state,
    cleanup_of-cleanup_value o.cleanup_state,
  )
