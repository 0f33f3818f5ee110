-- ===== src/Examples/Permits.antt =====
-- A live permit for the concrete plan.
use gpu_control.Base.{◌≡◌, refl, true, false, some, [], ◌++◌, Text, codes, pos, ok}
use gpu_control.Value.{get, Fields, text, int, flag, items, object, nil, cons, entry, end}
use gpu_control.Authorization.{is_true, equals_one, spaced_text, plain_text, got, mapping}
use gpu_control.Authorization.Repository.{
  RepositorySecurityEvidence, require_control, nonblank_texts, are_distinct, policy_checks,
  status_checks, require_checks, require_controls, validate_against_policy,
}
use gpu_control.Authorization.Paid.{
  PaidExecutionContext, PaidAuthorizationEvidence, as_paid, repository_reference, read_identity,
  same_as, check_same, check_environment, check_concurrency, check_run_id, read_context,
  authorize_paid_execution,
}
use gpu_control.Authorization.Human.{
  HumanAuthorizationEvidence, Bounds, require_match, as_human, human_utc, human_cost, check_texts,
  validate_human, check_exact, validate_for_live_plan, validate_permit, permit_of,
  authorize_live_plan,
}
use gpu_control.Authorization.Identity.{IsAuthorized}
use gpu_control.Authorization.Permit.{IsBound, InForce, live_permit_binds}
use gpu_control.Examples.World.{world, stamp, shown, sixty_four}
use gpu_control.Examples.Data.{opened, at, sha, plan}

unfoldable permitting : Text
unfolding opened equals_one spaced_text plain_text got mapping require_control nonblank_texts
    are_distinct policy_checks status_checks require_checks require_controls validate_against_policy
    as_paid repository_reference read_identity same_as check_same check_environment
    check_concurrency check_run_id read_context authorize_paid_execution require_match as_human
    human_utc human_cost check_texts validate_human check_exact validate_for_live_plan
    validate_permit permit_of authorize_live_plan
permitting = []

abbrev repository_evidence : RepositorySecurityEvidence
repository_evidence = record {
  repository = text (codes "u/g");
  branch = text (codes "main");
  branch_protected = flag true;
  pull_request_required = flag true;
  required_status_checks_enforced = flag true;
  required_status_checks = cons (text (codes "test")) nil;
  force_pushes_blocked = flag true;
  deletions_blocked = flag true;
  verification_reference = text (codes "gh:1");
  schema_version = int (pos 1);
}

abbrev identity_section : Fields
identity_section = entry (codes "repository") (text (codes "u/g")) (
    entry (codes "repository_owner") (text (codes "u")) (
      entry (codes "authorized_actor") (text (codes "u")) (
        entry (codes "authorized_triggering_actor") (text (codes "u")) (
          entry (codes "event_name") (text (codes "dispatch")) (
            entry (codes "ref") (text (codes "refs/heads/main")) (
              entry (codes "workflow_path") (text (codes "paid.yml"))
                (entry (codes "require_actor_and_triggering_actor_match") (flag true) end)))))))

abbrev controls : Fields
controls = entry (codes "branch_protection_required") (flag true) (
    entry (codes "pull_request_required") (flag true) (
      entry (codes "required_status_checks_required") (flag true) (
        entry (codes "force_pushes_forbidden") (flag true) (
          entry (codes "deletions_forbidden") (flag true) (
            entry (codes "required_status_checks") (items (cons (text (codes "test")) nil)) end)))))

abbrev environment : Fields
environment = entry (codes "name") (text (codes "paid")) (
    entry (codes "required_reviewer") (text (codes "u")) (
      entry (codes "secret_scope") (text (codes "environment_only"))
        (entry (codes "secret_names") (items (cons (text (codes "RUNPOD_API_KEY")) nil)) end)))

abbrev concurrency : Fields
concurrency = entry (codes "group") (text (codes "gpu")) (
    entry (codes "max_in_flight") (int (pos 1)) (
      entry (codes "cancel_in_progress") (flag false) (
        entry (codes "authorization_before_concurrency") (flag true)
          (entry (codes "unauthorized_runs_must_not_enter_paid_queue") (flag true) end))))

abbrev policy : Fields
policy = entry (codes "version") (int (pos 1)) (
    entry (codes "live_paid_compute_enabled") (flag true) (
      entry (codes "github_identity") (object identity_section) (
        entry (codes "github_repository_security") (object controls) (
          entry (codes "github_environment") (object environment)
            (entry (codes "concurrency") (object concurrency) end)))))

abbrev context : PaidExecutionContext
context = record {
  actor = text (codes "u");
  triggering_actor = text (codes "u");
  repository = text (codes "u/g");
  repository_owner = text (codes "u");
  event_name = text (codes "dispatch");
  ref = text (codes "refs/heads/main");
  workflow_ref = text (codes "u/g/paid.yml@refs/heads/main");
  run_id = text (codes "7");
  run_attempt = int (pos 1);
}

abbrev paid_evidence : PaidAuthorizationEvidence
paid_evidence = record {
  actor = codes "u";
  triggering_actor = codes "u";
  repository = codes "u/g";
  event_name = codes "dispatch";
  ref = codes "refs/heads/main";
  workflow_ref = codes "u/g/paid.yml@refs/heads/main";
  run_id = codes "7";
  run_attempt = pos 1;
  environment_name = codes "paid";
  concurrency_group = codes "gpu";
  repository_security_reference = text (codes "gh:1");
  authorization_reference = codes "github-actions:u/g:run:7:attempt:n:actor:u";
}

abbrev human_evidence : HumanAuthorizationEvidence
human_evidence = record {
  authorization_id = text (codes "h1");
  actor = text (codes "u");
  decision_record_id = text (codes "d1");
  control_plane_sha = text sha;
  plan_fingerprint = text (codes "sha256:" ++ sixty_four b'a');
  target_repo = plan.target_repo;
  target_sha = plan.target_sha;
  image_digest = plan.image_digest;
  provider = plan.provider;
  provider_resource_id = plan.provider_resource_id;
  gpu_count = int (pos 1);
  max_runtime_minutes = int (pos 30);
  max_cost_usd = text (shown plan.max_cost_usd);
  authorized_at_utc = text (stamp 100);
  valid_until_utc = text (stamp 200);
  authorization_reference = plan.authorization_reference;
  schema_version = int (pos 1);
}

paid_here :
    authorize_paid_execution (λ s. true) context policy (some repository_evidence) true
    ≡ ok paid_evidence
unfolding permitting
paid_here = refl

permitted_here :
    authorize_live_plan plan human_evidence paid_evidence sha (codes "d1") (at 150)
    ≡ ok (permit_of plan human_evidence paid_evidence)
unfolding permitting
permitted_here = refl

live_permit_binds_example :
    (authority : IsAuthorized policy (some repository_evidence) paid_evidence) × IsBound plan
      human_evidence authority.identity.actor sha
      (codes "d1")
    × (paid_evidence.triggering_actor ≡ authority.identity.actor)
    × (permit_of plan human_evidence paid_evidence ≡ permit_of plan human_evidence paid_evidence)
    × ((b : Bounds) × InForce plan human_evidence (at 150) b)
    × (is_true (get (codes "live_paid_compute_enabled") policy) ≡ true)
    × (r : RepositorySecurityEvidence) × (some repository_evidence ≡ some r)
    × (validate_against_policy r policy ≡ ok tt)
live_permit_binds_example =
    live_permit_binds (λ s. true) context policy (some repository_evidence) true paid_evidence plan
      human_evidence sha (codes "d1") (at 150) (permit_of plan human_evidence paid_evidence)
      paid_here permitted_here
