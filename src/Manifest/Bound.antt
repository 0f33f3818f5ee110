-- ===== src/Manifest/Bound.antt =====
-- What a built manifest is bound to: the lifecycle that it reports and the policy.
use gpu_control.Base.{
  ℕ, ◌≡◌, true, List, [], length, Text, text_eq_refl, pos, int_le→≤ℤ, ◌≤ℤ◌, ok, result_contract,
  arith, Result-cases, Option-cases, inl, inr,
}
use gpu_control.Value.{Value, text, int, same_text, same_text_self}
use gpu_control.Host.{Host, DateTime}
use gpu_control.Clock.{format_utc, ClockLaws, parse_utc-format_utc}
use gpu_control.Lifecycle.{JobState, same_state}
use gpu_control.Receipt.{SubmissionReceipt, validate_receipt, receipt_fingerprint}
use gpu_control.Receipt.Restored.{fingerprint_self}
use gpu_control.Observation.{JobObservation, finalized, observation_fingerprint}
use gpu_control.ResultPolicy.{ResultPolicy}
use gpu_control.Artifact.{OutputArtifact, natural_of, check_artifacts}
use gpu_control.Artifact.Bounds.{
  collected_total, Distinct, AllBounded, check_artifacts_lem, natural_of-eq-some,
}
use gpu_control.Manifest.{
  ResultManifest, check_payload, validate_manifest, build_result_manifest,
  validate_manifest_against_lifecycle,
}

same_state_refl : (s : JobState) → same_state s s ≡ true
same_state_refl s = ground arith

module _ ⦃h : Host⦄ where
  receipt-texts :
      (r : SubmissionReceipt) (d : DateTime)
      → validate_receipt r ≡ ok d
      → (same_text r.provider r.provider ≡ true)
        × (same_text r.provider_job_id r.provider_job_id ≡ true)
        × (same_text r.plan_fingerprint r.plan_fingerprint ≡ true)
  unfolding validate_receipt
  receipt-texts r d e = (
    same_text_self r.provider (ground arith),
    same_text_self r.provider_job_id (ground arith),
    fingerprint_self r.plan_fingerprint (ground arith),
  )

  text_self : (s : Text) → same_text (text s) (text s) ≡ true
  unfolding same_text
  text_self s = text_eq_refl s

module _ ⦃h : Host⦄ (policy : ResultPolicy) where
  -- What the retained logs and artifacts keep to.
  pub record IsContained (log_bytes : Value) (artifacts : List OutputArtifact) : Type 0 where
    pub logs : ℕ
    pub natural : log_bytes ≡ int (pos logs)
    pub logs_bounded : pos logs ≤ℤ policy.max_log_bytes
    pub count : pos (length artifacts) ≤ℤ policy.max_artifact_entries
    pub total : pos (collected_total artifacts) ≤ℤ policy.max_total_collected_bytes
    pub each : AllBounded policy artifacts
    pub distinct : Distinct artifacts

  -- Logs and artifacts that the checks of a manifest accept are within every bound of the policy: the
  -- log bytes, the number of artifacts, each artifact, the sum of the collected sizes; and no two
  -- artifacts have the same name.
  pub check_payload-IsContained :
      (logs truncated : Value) (xs : List OutputArtifact)
      → check_payload policy logs truncated xs ≡ ok tt
      → IsContained logs xs
  unfolding check_payload
  check_payload-IsContained logs truncated xs e = elim (Option-cases (natural_of logs)) [
    | inl failed ↦ absurd (ground arith)
    | inr (n, counted) ↦ elim (Result-cases (check_artifacts policy [] 0 xs)) [
      | inr (x, failed) ↦ absurd (ground arith)
      | inl (t, accepted) ↦
          let (sum, bounded, distinct) = check_artifacts_lem policy xs t accepted in
          record {
            logs = n;
            natural = natural_of-eq-some policy logs counted;
            logs_bounded = int_le→≤ℤ (pos n) policy.max_log_bytes (ground arith);
            count = int_le→≤ℤ (pos (length xs)) policy.max_artifact_entries (ground arith);
            total = rw (← sum) (int_le→≤ℤ (pos t) policy.max_total_collected_bytes (ground arith));
            each = bounded;
            distinct = distinct;
          }
    ]
  ]

  module _ (laws : ClockLaws h) (r : SubmissionReceipt) (final : JobObservation)
      (xs : List OutputArtifact) (logs truncated : Value) (t : DateTime) (m : ResultManifest) where
    -- A manifest that is built passes every check of that manifest against its own lifecycle.
    pub build_result_manifest-matches :
        build_result_manifest policy r final xs logs truncated t ≡ ok m
        → validate_manifest_against_lifecycle policy m r final ≡ ok tt
    unfolding build_result_manifest validate_manifest_against_lifecycle
    build_result_manifest-matches e = elim (Result-cases (validate_receipt r)) [
      | inr (x, failed) ↦ absurd (ground arith)
      | inl (d, valid) ↦ elim (Result-cases (format_utc result_contract t "collected_at_utc")) [
        | inr (x, failed) ↦ absurd (ground arith)
        | inl (w, written) ↦
            let (reads, utc) =
              parse_utc-format_utc laws result_contract result_contract t "collected_at_utc"
                "collected_at_utc" w written in
            let (provider, job, plan) = receipt-texts r d valid in
            ground (
              arith,
              text_self (receipt_fingerprint r),
              text_self (observation_fingerprint final),
              same_state_refl final.state,
            )
      ]
    ]

    -- A manifest is built only for a finalized job, holds exactly the artifacts that were given, and
    -- keeps to the policy in the number of entries, each size, the total and the retained logs.
    pub build_result_manifest-IsContained :
        build_result_manifest policy r final xs logs truncated t ≡ ok m
        → (finalized final ≡ true)
          × (m.artifacts ≡ xs)
          × (m.terminal_state ≡ final.state)
          × IsContained logs xs
    unfolding build_result_manifest validate_manifest
    build_result_manifest-IsContained e = (
      ground arith,
      ground arith,
      ground arith,
      check_payload-IsContained logs truncated xs (ground arith),
    )
