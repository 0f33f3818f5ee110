-- ===== src/Manifest/Restored.antt =====
-- A manifest with its artifacts survives storage as a dictionary.
use gpu_control.Base.{
  ◌≡◌, refl, true, some, pos, int_eq, List, [], ◌∷◌, ok, arith, ℕ, ◌+◌, Result-cases, inl, inr,
}
use gpu_control.Value.{Value, text, object, as_int, item, require_exact_keys}
use gpu_control.Host.{Host, DateTime}
use gpu_control.Lifecycle.Order.{state_of-state_value}
use gpu_control.ResultPolicy.{ResultPolicy}
use gpu_control.Artifact.{
  Disposition, collected, reference_only, OutputArtifact, collected_size, disposition_of,
  disposition_value, validate_artifact, check_artifacts, artifact_to_dict, artifact_from_dict,
}
use gpu_control.Manifest.{
  ResultManifest, check_payload, validate_manifest, artifact_dicts, restore_artifacts,
  manifest_to_dict, manifest_from_dict,
}

disposition_of-disposition_value :
    (d : Disposition) → disposition_of (text (disposition_value d)) ≡ some d
unfolding disposition_of
disposition_of-disposition_value collected = refl
disposition_of-disposition_value reference_only = refl

module _ ⦃h : Host⦄ (policy : ResultPolicy) where
  artifact_from_dict-artifact_to_dict :
      (a : OutputArtifact)
      → validate_artifact policy a ≡ ok tt
      → artifact_from_dict policy (object (artifact_to_dict a)) ≡ ok a
  unfolding artifact_from_dict artifact_to_dict item require_exact_keys
  artifact_from_dict-artifact_to_dict a e =
      ground (arith, disposition_of-disposition_value a.disposition)

  pub restore_artifacts-artifact_dicts :
      (names : List Value) (total : ℕ) (xs : List OutputArtifact) {t : ℕ}
      → check_artifacts policy names total xs ≡ ok t
      → restore_artifacts policy (artifact_dicts xs) ≡ ok xs
  unfolding restore_artifacts artifact_dicts check_artifacts
  restore_artifacts-artifact_dicts names total [] e = refl
  restore_artifacts-artifact_dicts names total (a ∷ rest) {t} e = ground (
    arith,
    artifact_from_dict-artifact_to_dict a,
    restore_artifacts-artifact_dicts (a.name ∷ names) (total + collected_size a) rest {t = t},
  )

  validate_manifest-facts :
      (m : ResultManifest) (d : DateTime)
      → validate_manifest policy m ≡ ok d
      → (int_eq m.schema_version (pos 1) ≡ true)
        × (restore_artifacts policy (artifact_dicts m.artifacts) ≡ ok m.artifacts)
  unfolding validate_manifest check_payload
  validate_manifest-facts m d e = elim (Result-cases (check_artifacts policy [] 0 m.artifacts)) [
    | inr (x, failed) ↦ absurd (ground arith)
    | inl (t, accepted) ↦ (ground arith, restore_artifacts-artifact_dicts [] 0 m.artifacts accepted)
  ]

  -- A valid manifest, stored with `to_dict` and restored with `from_dict` under the same policy, is
  -- the same manifest, with the same artifacts in the same order.
  pub manifest_from_dict-manifest_to_dict :
      (m : ResultManifest) (d : DateTime)
      → validate_manifest policy m ≡ ok d
      → manifest_from_dict policy (object (manifest_to_dict m)) ≡ ok m
  unfolding manifest_from_dict manifest_to_dict item require_exact_keys as_int
  manifest_from_dict-manifest_to_dict m d e =
      let (version, restored) = validate_manifest-facts m d e in
      ground (arith, state_of-state_value m.terminal_state)
