-- ===== src/Authorization/Identity.antt =====
-- What authorization for paid compute has checked.
use gpu_control.Base.{
  ◌≡◌, sym, ap, String, Bool, ◌&&◌, not, some, Option, Text, codes, text_eq, text_eq→eq, ◌++◌,
  pos_part, ok, Error, paid_authorization, >>=-eq-ok, >>-eq-ok, guard->>-eq-ok, arith,
}
use mathlib.Core.Path.{subst}
use gpu_control.Value.{Value, Fields, get, object}
use gpu_control.Host.{Host}
use gpu_control.Authorization.{is_one, is_true, mapping}
use gpu_control.Authorization.Repository.{RepositorySecurityEvidence}
use gpu_control.Authorization.Paid.{
  PaidExecutionContext, PaidAuthorizationEvidence, repository_reference, Identity, Context,
  check_same, read_context, read_identity, same_as, check_environment, check_concurrency,
  authorize_paid_execution,
}

-- What paid authorization has checked: the policy names the actor, and a live policy has evidence of the
-- repository's controls.
pub record IsAuthorized (policy : Fields) (evidence : Option RepositorySecurityEvidence)
    (p : PaidAuthorizationEvidence) : Type 0 where
  pub fields : Fields
  pub section : get (codes "github_identity") policy ≡ some (object fields)
  pub identity : Identity
  pub read : read_identity fields ≡ ok identity
  pub actor_same : p.actor ≡ identity.actor
  pub trigger_same : p.triggering_actor ≡ p.actor
  pub ref_same : p.ref ≡ identity.ref
  pub reference :
      repository_reference
        (is_true (get (codes "live_paid_compute_enabled") policy))
        evidence
        policy
      ≡ ok p.repository_security_reference

mapping-eq-ok :
    (fail : String → Error) (o : Option Value) (m : String) (fs : Fields)
    → mapping fail o m ≡ ok fs
    → o ≡ some (object fs)
unfolding mapping
mapping-eq-ok fail (some (object fs)) m gs e =
    let same : fs ≡ gs = cc in ap (λ x. some (object x)) same
mapping-eq-ok fail o m gs e = cc

same_as-eq-ok : (label : String) (s t : Text) → same_as label s t ≡ ok tt → s ≡ t
unfolding same_as
same_as-eq-ok label s t e = text_eq→eq s t (ground arith)

evidence_of : ⦃h : Host⦄ → Context → Text → Text → Value → PaidAuthorizationEvidence
evidence_of ⦃h⦄ x name group reference = record {
  actor = x.actor;
  triggering_actor = x.triggering_actor;
  repository = x.repository;
  event_name = x.event_name;
  ref = x.ref;
  workflow_ref = x.workflow_ref;
  run_id = x.run_id;
  run_attempt = x.run_attempt;
  environment_name = name;
  concurrency_group = group;
  repository_security_reference = reference;
  authorization_reference =
      codes "github-actions:"
      ++ (x.repository
          ++ (codes ":run:"
              ++ (x.run_id
                  ++ (codes ":attempt:"
                      ++ (codes (h.int_str (pos_part x.run_attempt))
                          ++ (codes ":actor:" ++ x.actor))))));
}

check_same-eq-ok :
    (x : Context) (identity : Identity)
    → check_same x identity ≡ ok tt
    → (x.actor ≡ identity.actor) × (x.ref ≡ identity.ref)
unfolding check_same
check_same-eq-ok x identity r =
    let (_, r1) = >>-eq-ok (same_as "repository" x.repository identity.repository) _ r in
    let (_, r2) = >>-eq-ok (same_as "repository_owner" x.repository_owner identity.owner) _ r1 in
    let (actor_same, r3) = >>-eq-ok (same_as "actor" x.actor identity.actor) _ r2 in
    let (_, r4) =
      >>-eq-ok (same_as "triggering_actor" x.triggering_actor identity.triggering_actor) _ r3 in
    let (_, ref_same) = >>-eq-ok (same_as "event_name" x.event_name identity.event_name) _ r4 in
    (
      same_as-eq-ok "actor" x.actor identity.actor actor_same,
      same_as-eq-ok "ref" x.ref identity.ref ref_same,
    )

authorized :
    ⦃h : Host⦄ (policy : Fields) (evidence : Option RepositorySecurityEvidence)
    (p : PaidAuthorizationEvidence) (x : Context) (name group : Text) (reference : Value)
    (fields : Fields) (identity : Identity)
    → ok (evidence_of x name group reference) ≡ ok p
    → repository_reference
        (is_true (get (codes "live_paid_compute_enabled") policy))
        evidence
        policy
      ≡ ok reference
    → get (codes "github_identity") policy ≡ some (object fields)
    → read_identity fields ≡ ok identity
    → x.actor ≡ identity.actor
    → x.actor ≡ x.triggering_actor
    → x.ref ≡ identity.ref
    → IsAuthorized policy evidence p
unfolding evidence_of
authorized policy evidence p x name group reference fields identity e referred section read a t f =
    let same : evidence_of x name group reference ≡ p = cc in
    subst (IsAuthorized policy evidence) same (record {
      fields = fields;
      section = section;
      identity = identity;
      read = read;
      actor_same = a;
      trigger_same = sym t;
      ref_same = f;
      reference = referred;
    })

module _ ⦃h : Host⦄ (is_decimal : Text → Bool) where
  pub authorize_paid_execution-IsAuthorized :
      (c : PaidExecutionContext) (policy : Fields) (evidence : Option RepositorySecurityEvidence)
      (live : Bool) (p : PaidAuthorizationEvidence)
      → authorize_paid_execution is_decimal c policy evidence live ≡ ok p
      → IsAuthorized policy evidence p
  unfolding authorize_paid_execution evidence_of
  authorize_paid_execution-IsAuthorized c policy evidence live p r =
      let on = is_true (get (codes "live_paid_compute_enabled") policy) in
      let (_, r1) = guard->>-eq-ok (is_one (get (codes "version") policy)) _ _ r in
      let (_, r2) = guard->>-eq-ok (not (live && not on)) _ _ r1 in
      let (reference, referred, r3) = >>=-eq-ok (repository_reference on evidence policy) _ r2 in
      let (fields, section, r4) =
        >>=-eq-ok
          (mapping paid_authorization (get (codes "github_identity") policy)
            "github_identity must be a mapping")
          _ r3 in
      let (environment, _, r5) =
        >>=-eq-ok
          (mapping paid_authorization (get (codes "github_environment") policy)
            "github_environment must be a mapping")
          _ r4 in
      let (concurrency, _, r6) =
        >>=-eq-ok
          (mapping paid_authorization (get (codes "concurrency") policy)
            "concurrency must be a mapping")
          _ r5 in
      let (x, _, r7) = >>=-eq-ok (read_context is_decimal c) _ r6 in
      let (identity, read, r8) = >>=-eq-ok (read_identity fields) _ r7 in
      let (checked, r9) = >>-eq-ok (check_same x identity) _ r8 in
      let (_, r10) =
        guard->>-eq-ok (is_true (get (codes "require_actor_and_triggering_actor_match") fields)) _ _
          r9 in
      let (twice, r11) = guard->>-eq-ok (text_eq x.actor x.triggering_actor) _ _ r10 in
      let (_, r12) =
        guard->>-eq-ok
          (text_eq x.workflow_ref (
            identity.repository
            ++ (codes "/" ++ (identity.workflow_path ++ (codes "@" ++ identity.ref)))))
          _ _ r11 in
      let (name, _, r13) = >>=-eq-ok (check_environment environment identity.actor) _ r12 in
      let (group, _, r14) = >>=-eq-ok (check_concurrency concurrency) _ r13 in
      let (actor_same, ref_same) = check_same-eq-ok x identity checked in
      authorized policy evidence p x name group reference fields identity r14 referred
        (mapping-eq-ok paid_authorization (get (codes "github_identity") policy)
          "github_identity must be a mapping" fields section)
        read actor_same (text_eq→eq x.actor x.triggering_actor twice) ref_same
