-- ===== src/Synthetic.antt =====
-- src/gpu_control/providers/synthetic.py: the adapter without a network, as an adapter of the
-- controller. A RuntimeError of it is a `provider_failure`.
use gpu_control.Base.{
  ℕ, zero, suc, ◌+◌, ◌*◌, Bool, true, false, ◌&&◌, Option, none, some, [], ◌∷◌, ◌++◌, Text, codes,
  pos, take, drop, ◌==◌, Result, ok, err, provider_failure, if◌then◌else◌,
}
use gpu_control.Value.{text, flag, int, same_text}
use gpu_control.Host.{Host}
use gpu_control.Lifecycle.{JobState, running, succeeded, completed, state_value}
use gpu_control.Plan.{ApprovedExecutionPlan, fingerprint}
use gpu_control.Receipt.{SubmissionReceipt}
use gpu_control.Observation.{JobObservation, terminal, finalized}
use gpu_control.Artifact.{OutputArtifact, collected, reference_only}
use gpu_control.Adapter.{
  ProviderSubmission, ProviderStatusSnapshot, ProviderCleanupSnapshot, ProviderResultSnapshot, Call,
  ProviderAdapter,
}

pub record Synthetic : Type 0 where
  pub job_id : Option Text
  pub observations : ℕ
  pub cleaned : Bool

-- `SyntheticProviderAdapter()`
abbrev pub fresh : Synthetic
fresh = record { job_id = none; observations = 0; cleaned = false }

abbrev pub provider_name : Text
provider_name = codes "synthetic"

-- `_require_job`
unfoldable pub require_job : Synthetic → SubmissionReceipt → Result Text
require_job s receipt = elim s.job_id [
  | none ↦ err (provider_failure "synthetic adapter has no submitted job")
  | some id ↦
      if same_text receipt.provider_job_id (text id)
      then ok id
      else err (provider_failure "synthetic receipt does not match submitted job")
]

-- The character n times.
abbrev repeated : ℕ → ℕ → Text
repeated zero c = []
repeated (suc n) c = c ∷ repeated n c

abbrev pub metrics : Text → OutputArtifact
metrics job = record {
  name = text (codes "metrics.json");
  sha256 = text (codes "sha256:" ++ repeated 64 b'1');
  size_bytes = int (pos 256);
  media_type = text (codes "application/json");
  reference = text (codes "synthetic://" ++ (job ++ codes "/metrics.json"));
  disposition = collected;
}

abbrev pub checkpoint : Text → OutputArtifact
checkpoint job = record {
  name = text (codes "checkpoints/example.safetensors");
  sha256 = text (codes "sha256:" ++ repeated 64 b'2');
  size_bytes = int (pos (2 * 1024 * 1024 * 1024));
  media_type = text (codes "application/octet-stream");
  reference = text (codes "synthetic://" ++ (job ++ codes "/checkpoints/example.safetensors"));
  disposition = reference_only;
}

-- The answer of a call that first requires the job.
abbrev for_job :
    {A : Type 0} → Result Text → Synthetic → (Text → Result A × Synthetic) → Result A × Synthetic
for_job (err e) s f = (err e, s)
for_job (ok id) s f = f id

-- The state that the adapter reports, by the number of observations before.
abbrev pub reported : ℕ → JobState
reported n = if n == 0 then running else succeeded

unfoldable pub synthetic_observe :
    SubmissionReceipt → Call Synthetic (Option ProviderStatusSnapshot)
unfolding require_job
synthetic_observe receipt s = for_job (require_job s receipt) s λ id. (
  ok (
      some (record {
        provider_job_id = text id;
        state = some (reported s.observations);
        status_reference = text (
            codes "synthetic-status:"
            ++ (id ++ (codes ":" ++ state_value (reported s.observations))));
      })),
  record s { observations = s.observations + 1 },
)

unfoldable pub synthetic_cleanup :
    SubmissionReceipt → JobObservation → Call Synthetic (Option ProviderCleanupSnapshot)
unfolding require_job
synthetic_cleanup receipt final s = for_job (require_job s receipt) s λ id.
    if terminal final
    then (
      ok (
          some (record {
            provider_job_id = text id;
            cleanup_state = some completed;
            cleanup_reference = text (codes "synthetic-cleanup:" ++ (id ++ codes ":completed"));
          })),
      record s { cleaned = true },
    )
    else (err (provider_failure "synthetic cleanup requires terminal state"), s)

unfoldable pub synthetic_collect :
    SubmissionReceipt → JobObservation → Call Synthetic (Option ProviderResultSnapshot)
unfolding require_job
synthetic_collect receipt final s = for_job (require_job s receipt) s λ id.
    if s.cleaned && finalized final
    then (
      ok (
          some (record {
            provider_job_id = text id;
            log_bytes_retained = int (pos 128);
            logs_truncated = flag false;
            artifacts = some (metrics id ∷ checkpoint id ∷ []);
          })),
      s,
    )
    else (err (provider_failure "synthetic results require completed cleanup"), s)

module _ ⦃h : Host⦄ where
  -- `f"synthetic-{plan.fingerprint()[7:19]}"`
  unfoldable pub synthetic_job_id : ApprovedExecutionPlan → Text
  synthetic_job_id plan = codes "synthetic-" ++ take 12 (drop 7 (fingerprint plan))

  unfoldable pub synthetic_submit :
      ApprovedExecutionPlan → Call Synthetic (Option ProviderSubmission)
  unfolding synthetic_job_id
  synthetic_submit plan s = elim s.job_id [
    | some id ↦
        (err (provider_failure "synthetic adapter accepts only one submission per instance"), s)
    | none ↦
        if same_text plan.provider (text provider_name)
        then (
          ok (some (record { provider_job_id = text (synthetic_job_id plan) })),
          record s { job_id = some (synthetic_job_id plan) },
        )
        else (err (provider_failure "synthetic adapter received a plan for another provider"), s)
  ]

  abbrev pub synthetic_adapter : ProviderAdapter
  synthetic_adapter = record {
    State = Synthetic;
    provider_name = λ s. some (text provider_name);
    submit = synthetic_submit;
    observe = synthetic_observe;
    cleanup = synthetic_cleanup;
    collect_results = synthetic_collect;
  }
