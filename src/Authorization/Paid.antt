-- ===== src/Authorization/Paid.antt =====
-- src/gpu_control/paid_authorization.py: the one identity that may approach paid compute. The policy is
-- the mapping that the YAML parser returns.
use gpu_control.Base.{
  String, ◌<>◌, Bool, true, false, ◌&&◌, not, none, some, Option, Text, codes, text_eq, ◌++◌,
  pos_part, ℤ, int_pos, if◌then◌else◌, Result, ok, err, paid_authorization, repository_security,
  value_error, guard, ◌>>=◌, ◌>>◌,
}
use gpu_control.Value.{Value, Fields, text, items, nil, cons, get, as_int}
use gpu_control.Host.{Host}
use gpu_control.Authorization.{is_one, is_true, is_false, plain_text, got, mapping}
use gpu_control.Authorization.Repository.{RepositorySecurityEvidence, validate_against_policy}

pub record PaidExecutionContext : Type 0 where
  pub actor : Value
  pub triggering_actor : Value
  pub repository : Value
  pub repository_owner : Value
  pub event_name : Value
  pub ref : Value
  pub workflow_ref : Value
  pub run_id : Value
  pub run_attempt : Value

pub record PaidAuthorizationEvidence : Type 0 where
  pub actor : Text
  pub triggering_actor : Text
  pub repository : Text
  pub event_name : Text
  pub ref : Text
  pub workflow_ref : Text
  pub run_id : Text
  pub run_attempt : ℤ
  pub environment_name : Text
  pub concurrency_group : Text
  pub repository_security_reference : Value
  pub authorization_reference : Text

abbrev pub paid : Value → String → Result Text
paid = plain_text paid_authorization

abbrev policy_text : Fields → String → String → Result Text
policy_text fs key label = got paid_authorization paid (get (codes key) fs) ("policy " <> label)

-- `except RepositorySecurityError as exc: raise PaidAuthorizationError(str(exc))`
unfoldable pub as_paid : Result (Unit {0}) → Result (Unit {0})
as_paid (err (repository_security m)) = err (paid_authorization m)
as_paid r = r

-- The reference of the repository evidence, which a live policy requires.
unfoldable pub repository_reference :
    Bool → Option RepositorySecurityEvidence → Fields → Result Value
repository_reference false evidence policy = ok (text (codes "not-live"))
repository_reference true none policy =
    err (paid_authorization "live paid compute requires trusted GitHub branch protection evidence")
repository_reference true (some e) policy = do
  as_paid (validate_against_policy e policy)
  ok e.verification_reference

-- The policy's section `github_identity`.
pub record Identity : Type 0 where
  pub repository : Text
  pub owner : Text
  pub actor : Text
  pub triggering_actor : Text
  pub event_name : Text
  pub ref : Text
  pub workflow_path : Text

unfoldable pub read_identity : Fields → Result Identity
read_identity fs = do
  repository ← policy_text fs "repository" "repository"
  owner ← policy_text fs "repository_owner" "repository_owner"
  actor ← policy_text fs "authorized_actor" "authorized_actor"
  triggering ← policy_text fs "authorized_triggering_actor" "authorized_triggering_actor"
  event ← policy_text fs "event_name" "event_name"
  ref ← policy_text fs "ref" "ref"
  path ← policy_text fs "workflow_path" "workflow_path"
  ok (record {
    repository = repository;
    owner = owner;
    actor = actor;
    triggering_actor = triggering;
    event_name = event;
    ref = ref;
    workflow_path = path;
  })

unfoldable pub same_as : String → Text → Text → Result (Unit {0})
same_as label actual expected =
    guard (text_eq actual expected)
      (paid_authorization (label <> " is not authorized for paid compute"))

-- The context with its texts read.
pub record Context : Type 0 where
  pub actor : Text
  pub triggering_actor : Text
  pub repository : Text
  pub repository_owner : Text
  pub event_name : Text
  pub ref : Text
  pub workflow_ref : Text
  pub run_id : Text
  pub run_attempt : ℤ

-- The loop over `checks`.
unfoldable pub check_same : Context → Identity → Result (Unit {0})
check_same x identity = do
  same_as "repository" x.repository identity.repository
  same_as "repository_owner" x.repository_owner identity.owner
  same_as "actor" x.actor identity.actor
  same_as "triggering_actor" x.triggering_actor identity.triggering_actor
  same_as "event_name" x.event_name identity.event_name
  same_as "ref" x.ref identity.ref

-- `d.get("secret_scope") == "environment_only"` and `d.get("secret_names") == ["RUNPOD_API_KEY"]`
abbrev is_text : Option Value → Text → Bool
is_text (some (text s)) t = text_eq s t
is_text _ t = false

abbrev is_only_secret : Option Value → Bool
is_only_secret (some (items (cons (text s) nil))) = text_eq s (codes "RUNPOD_API_KEY")
is_only_secret _ = false

-- The checks of the sections `github_environment` and `concurrency`: the name and the group.
unfoldable pub check_environment : Fields → Text → Result Text
check_environment fs actor = do
  name ← got paid_authorization paid (get (codes "name") fs) "paid environment name"
  reviewer ←
      got paid_authorization paid (get (codes "required_reviewer") fs)
        "paid environment required_reviewer"
  guard (text_eq reviewer actor)
      (paid_authorization "paid environment reviewer must be the authorized actor")
  guard (is_text (get (codes "secret_scope") fs) (codes "environment_only"))
      (paid_authorization "paid provider secret must be environment-scoped")
  guard (is_only_secret (get (codes "secret_names") fs))
      (paid_authorization "paid environment must expose only the expected RunPod secret name")
  ok name

unfoldable pub check_concurrency : Fields → Result Text
check_concurrency fs = do
  group ← got paid_authorization paid (get (codes "group") fs) "paid concurrency group"
  guard (is_one (get (codes "max_in_flight") fs))
      (paid_authorization "paid concurrency must allow exactly one in-flight job")
  guard (is_false (get (codes "cancel_in_progress") fs))
      (paid_authorization "paid concurrency must not cancel an already-running GPU job")
  guard (is_true (get (codes "authorization_before_concurrency") fs))
      (paid_authorization "authorization must run before paid concurrency admission")
  guard (is_true (get (codes "unauthorized_runs_must_not_enter_paid_queue") fs))
      (paid_authorization "unauthorized runs must not enter the paid queue")
  ok group

abbrev pub positive_attempt : Value → Result ℤ
positive_attempt v = elim (as_int v) [
  | none ↦ err (paid_authorization "run_attempt must be a positive integer")
  | some n ↦
      if int_pos n then ok n else err (paid_authorization "run_attempt must be a positive integer")
]

-- `is_decimal` is `str.isdecimal`
module _ ⦃h : Host⦄ (is_decimal : Text → Bool) where
  -- `run_id.isdecimal()` and `int(run_id) > 0`
  unfoldable pub check_run_id : Text → Result (Unit {0})
  check_run_id s =
      if is_decimal s
      then (elim (h.int_of_text s) [
        | none ↦ err (value_error "invalid literal for int()")
        | some n ↦
            guard (int_pos n) (paid_authorization "run_id must be a positive GitHub Actions run id")
      ])
      else err (paid_authorization "run_id must be a positive GitHub Actions run id")

  -- The fields of the context, read as texts.
  unfoldable pub read_context : PaidExecutionContext → Result Context
  read_context c = do
    actor ← paid c.actor "actor"
    triggering_actor ← paid c.triggering_actor "triggering_actor"
    repository ← paid c.repository "repository"
    repository_owner ← paid c.repository_owner "repository_owner"
    event_name ← paid c.event_name "event_name"
    ref ← paid c.ref "ref"
    workflow_ref ← paid c.workflow_ref "workflow_ref"
    run_id ← paid c.run_id "run_id"
    check_run_id run_id
    run_attempt ← positive_attempt c.run_attempt
    ok (record {
      actor = actor;
      triggering_actor = triggering_actor;
      repository = repository;
      repository_owner = repository_owner;
      event_name = event_name;
      ref = ref;
      workflow_ref = workflow_ref;
      run_id = run_id;
      run_attempt = run_attempt;
    })

  -- `authorize_paid_execution`
  unfoldable pub authorize_paid_execution :
      PaidExecutionContext
      → Fields
      → Option RepositorySecurityEvidence
      → Bool
      → Result PaidAuthorizationEvidence
  authorize_paid_execution c policy evidence require_live_enabled = do
    guard (is_one (get (codes "version") policy))
        (paid_authorization "unsupported paid execution policy version")
    let live_enabled = is_true (get (codes "live_paid_compute_enabled") policy)
    guard (not (require_live_enabled && not live_enabled))
        (paid_authorization "live paid compute remains disabled by policy")
    reference ← repository_reference live_enabled evidence policy
    identity_fields ←
        mapping paid_authorization (get (codes "github_identity") policy)
          "github_identity must be a mapping"
    environment ←
        mapping paid_authorization (get (codes "github_environment") policy)
          "github_environment must be a mapping"
    concurrency ←
        mapping paid_authorization (get (codes "concurrency") policy)
          "concurrency must be a mapping"
    x ← read_context c
    identity ← read_identity identity_fields
    check_same x identity
    guard (is_true (get (codes "require_actor_and_triggering_actor_match") identity_fields))
        (paid_authorization "paid policy must require actor/triggering_actor equality")
    guard (text_eq x.actor x.triggering_actor)
        (paid_authorization "paid workflow re-run by a different triggering actor is forbidden")
    guard
        (text_eq x.workflow_ref (
          identity.repository
          ++ (codes "/" ++ (identity.workflow_path ++ (codes "@" ++ identity.ref)))))
        (paid_authorization "workflow_ref is not the owner-only paid workflow on main")
    environment_name ← check_environment environment identity.actor
    group ← check_concurrency concurrency
    ok (record {
      actor = x.actor;
      triggering_actor = x.triggering_actor;
      repository = x.repository;
      event_name = x.event_name;
      ref = x.ref;
      workflow_ref = x.workflow_ref;
      run_id = x.run_id;
      run_attempt = x.run_attempt;
      environment_name = environment_name;
      concurrency_group = group;
      repository_security_reference = reference;
      authorization_reference =
          codes "github-actions:"
          ++ (x.repository
              ++ (codes ":run:"
                  ++ (x.run_id
                      ++ (codes ":attempt:"
                          ++ (codes (h.int_str (pos_part x.run_attempt))
                              ++ (codes ":actor:" ++ x.actor))))));
    })
