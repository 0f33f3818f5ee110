-- ===== src/Capture/Restored.antt =====
-- A capture keeps to the policy, and survives storage as a dictionary.
use gpu_control.Base.{
  suc, ◌≡◌, refl, true, pos, int_eq, int_le, List, [], ◌∷◌, ok, arith, ℕ, ◌+◌, length, ap,
  Result-cases, Option-cases, inl, inr,
}
use gpu_control.Value.{Value, object, as_int, item, require_exact_keys}
use gpu_control.Host.{Host, DateTime}
use gpu_control.Lifecycle.Order.{state_of-state_value}
use gpu_control.ResultPolicy.{ResultPolicy, validate_policy}
use gpu_control.Artifact.{OutputArtifact, collected_size, natural_of, check_artifacts}
use gpu_control.Manifest.{check_payload, artifact_dicts, restore_artifacts}
use gpu_control.Manifest.Bound.{IsContained, check_payload-IsContained}
use gpu_control.Manifest.Restored.{restore_artifacts-artifact_dicts}
use gpu_control.Capture.{
  ProviderResultCapture, values_length, check_captured, validate_result_payload, validate_capture,
  capture_to_dict, capture_from_dict,
}

values_length-artifact_dicts :
    (xs : List OutputArtifact) → values_length (artifact_dicts xs) ≡ length xs
unfolding values_length artifact_dicts
values_length-artifact_dicts [] = refl
values_length-artifact_dicts (a ∷ rest) = ap suc (values_length-artifact_dicts rest)

module _ ⦃h : Host⦄ (policy : ResultPolicy) where
  -- The two loops over artifacts differ in a message only.
  check_captured_lem :
      (names : List Value) (total : ℕ) (xs : List OutputArtifact) {t : ℕ}
      → check_captured policy names total xs ≡ ok t
      → check_artifacts policy names total xs ≡ ok t
  unfolding check_captured check_artifacts
  check_captured_lem names total [] e = e
  check_captured_lem names total (a ∷ rest) {t} e =
      ground (arith, check_captured_lem (a.name ∷ names) (total + collected_size a) rest {t = t})

  validate_result_payload_lem :
      (xs : List OutputArtifact) (logs truncated : Value)
      → validate_result_payload policy xs logs truncated ≡ ok tt
      → (check_payload policy logs truncated xs ≡ ok tt)
        × (int_le (pos (length xs)) policy.max_artifact_entries ≡ true)
        × (restore_artifacts policy (artifact_dicts xs) ≡ ok xs)
  unfolding validate_result_payload check_payload
  validate_result_payload_lem xs logs truncated e = elim (Option-cases (natural_of logs)) [
    | inl failed ↦ absurd (ground arith)
    | inr (n, counted) ↦ elim (Result-cases (check_captured policy [] 0 xs)) [
      | inr (x, failed) ↦ absurd (ground arith)
      | inl (t, accepted) ↦
          let same = check_captured_lem [] 0 xs accepted in
          (ground arith, ground arith, restore_artifacts-artifact_dicts policy [] 0 xs same)
    ]
  ]

  -- A capture that is accepted keeps to every bound of the policy, like a manifest: the log bytes,
  -- the number of artifacts, each artifact and the sum of the collected sizes; and no two artifacts
  -- have the same name.
  pub validate_capture-IsContained :
      (c : ProviderResultCapture) (d : DateTime)
      → validate_capture policy c ≡ ok d
      → IsContained policy c.log_bytes_retained c.artifacts
  unfolding validate_capture
  validate_capture-IsContained c d e =
      let (payload, _, _) =
        validate_result_payload_lem c.artifacts c.log_bytes_retained c.logs_truncated
          (ground arith) in
      check_payload-IsContained policy c.log_bytes_retained c.logs_truncated c.artifacts payload

  validate_capture-facts :
      (c : ProviderResultCapture) (d : DateTime)
      → validate_capture policy c ≡ ok d
      → (int_eq c.schema_version (pos 1) ≡ true)
        × (validate_policy policy ≡ ok tt)
        × (int_le (pos (length c.artifacts)) policy.max_artifact_entries ≡ true)
        × (restore_artifacts policy (artifact_dicts c.artifacts) ≡ ok c.artifacts)
  unfolding validate_capture
  validate_capture-facts c d e =
      let (_, count, restored) =
        validate_result_payload_lem c.artifacts c.log_bytes_retained c.logs_truncated
          (ground arith) in
      (ground arith, ground arith, count, restored)

  -- A valid capture, stored with `to_dict` and restored with `from_dict` under the same policy, is
  -- the same capture, with the same artifacts in the same order.
  pub capture_from_dict-capture_to_dict :
      (c : ProviderResultCapture) (d : DateTime)
      → validate_capture policy c ≡ ok d
      → capture_from_dict policy (object (capture_to_dict c)) ≡ ok c
  unfolding capture_from_dict capture_to_dict item require_exact_keys as_int
  capture_from_dict-capture_to_dict c d e =
      let (version, valid, count, restored) = validate_capture-facts c d e in
      ground
        (arith, values_length-artifact_dicts c.artifacts, state_of-state_value c.terminal_state)
