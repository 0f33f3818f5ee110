-- ===== src/Authorization/Permit.antt =====
-- What a live permit says of the plan, of the human authorization and of the identity that asks for it.
use gpu_control.Base.{
  ◌+◌, ◌≡◌, refl, sym, ap, ◌∙◌, String, Bool, true, false, ◌&&◌, none, some, Option, Text, codes,
  text_eq, text_eq_refl, int_eq, int_le, leb, Result, ok, err, Error, human_authorization,
  execution_gate, >>=-eq-ok, >>-eq-ok, guard->>-eq-ok, arith,
}
use mathlib.Core.Path.{subst}
use gpu_control.Decimal.{decimal_le}
use gpu_control.Value.{Value, Fields, text, same_text, same_text→eq, as_int, get}
use gpu_control.Host.{Host, DateTime, before, not_after}
use gpu_control.Plan.{ApprovedExecutionPlan, validate_shape, fingerprint}
use gpu_control.Authorization.{is_true, plain_text, spaced_text}
use gpu_control.Authorization.Repository.{RepositorySecurityEvidence, validate_against_policy}
use gpu_control.Authorization.Paid.{
  PaidExecutionContext, PaidAuthorizationEvidence, paid, as_paid, repository_reference,
  authorize_paid_execution,
}
use gpu_control.Authorization.Identity.{IsAuthorized, authorize_paid_execution-IsAuthorized}
use gpu_control.Authorization.Human.{
  HumanAuthorizationEvidence, LiveExecutionPermit, human, max_validity, as_human, require_now,
  positive_int, Bounds, human_utc, human_cost, check_texts, validate_human, check_exact,
  validate_for_live_plan, validate_permit, is_live, permit_of, is_sha40_text, authorize_live_plan,
}

plain_text_self :
    (fail : String → Error) (s t : Text) (field : String)
    → plain_text fail (text s) field ≡ ok t
    → s ≡ t
unfolding plain_text spaced_text
plain_text_self fail s t field e = ground arith

as_human-eq-ok : (r : Result (Unit {0})) → as_human r ≡ ok tt → r ≡ ok tt
unfolding as_human
as_human-eq-ok (ok tt) e = refl
as_human-eq-ok (err (execution_gate m)) e = cc
as_human-eq-ok (err x) e = ground arith

as_paid-eq-ok : (r : Result (Unit {0})) → as_paid r ≡ ok tt → r ≡ ok tt
unfolding as_paid
as_paid-eq-ok (ok tt) e = refl
as_paid-eq-ok (err x) e = ground arith

module _ ⦃h : Host⦄ where
  -- The bounds are those that the evidence states.
  pub record IsStated (e : HumanAuthorizationEvidence) (b : Bounds) : Type 0 where
    pub authorized : human_utc e.authorized_at_utc "authorized_at_utc" ≡ ok b.authorized
    pub valid_until : human_utc e.valid_until_utc "valid_until_utc" ≡ ok b.valid_until
    pub cost : human_cost e.max_cost_usd ≡ ok b.cost
    pub runtime : positive_int e.max_runtime_minutes ≡ ok b.runtime
    pub short : leb b.valid_until.instant (b.authorized.instant + max_validity) ≡ true

  -- The human authorization in force: its window, and its bounds on the plan.
  pub record InForce (plan : ApprovedExecutionPlan) (e : HumanAuthorizationEvidence)
      (now : DateTime) (b : Bounds) : Type 0 where
    pub stated : IsStated e b
    pub begun : not_after b.authorized now ≡ true
    pub lasts : before now b.valid_until ≡ true
    pub runtime : int_le plan.max_runtime_minutes b.runtime ≡ true
    pub cost : decimal_le plan.max_cost_usd b.cost ≡ true

  pub record IsBound (plan : ApprovedExecutionPlan) (e : HumanAuthorizationEvidence)
      (actor sha record_id : Text) : Type 0 where
    pub shaped : validate_shape plan ≡ ok tt
    pub fingerprint_same : e.plan_fingerprint ≡ text (fingerprint plan)
    pub actor_same : e.actor ≡ text actor
    pub control_same : e.control_plane_sha ≡ text sha
    pub decision_same : e.decision_record_id ≡ text record_id
    pub repo_same : e.target_repo ≡ plan.target_repo
    pub sha_same : e.target_sha ≡ plan.target_sha
    pub image_same : e.image_digest ≡ plan.image_digest
    pub provider_same : e.provider ≡ plan.provider
    pub resource_same : e.provider_resource_id ≡ plan.provider_resource_id
    pub reference_same : e.authorization_reference ≡ plan.authorization_reference

  validate_human-IsStated :
      (e : HumanAuthorizationEvidence) (b : Bounds) → validate_human e ≡ ok b → IsStated e b
  unfolding validate_human
  validate_human-IsStated e b r =
      let (_, r1) = >>-eq-ok (check_texts e) _ r in
      let (runtime, read1, r2) = >>=-eq-ok (positive_int e.max_runtime_minutes) _ r1 in
      let (cost, read2, r3) = >>=-eq-ok (human_cost e.max_cost_usd) _ r2 in
      let (authorized, read3, r4) =
        >>=-eq-ok (human_utc e.authorized_at_utc "authorized_at_utc") _ r3 in
      let (valid_until, read4, r5) =
        >>=-eq-ok (human_utc e.valid_until_utc "valid_until_utc") _ r4 in
      let (_, r6) = guard->>-eq-ok (before authorized valid_until) _ _ r5 in
      let (short, r7) =
        guard->>-eq-ok (leb valid_until.instant (authorized.instant + max_validity)) _ _ r6 in
      let (_, _, r8) = >>=-eq-ok (human e.authorization_reference "authorization_reference") _ r7 in
      let whole : Bounds = record {
        authorized = authorized;
        valid_until = valid_until;
        cost = cost;
        runtime = runtime;
      } in
      let same : whole ≡ b = cc in
      subst (IsStated e) same (record {
        authorized = read3;
        valid_until = read4;
        cost = read2;
        runtime = read1;
        short = short;
      })

  record IsExact (plan : ApprovedExecutionPlan) (e : HumanAuthorizationEvidence) (b : Bounds)
      : Type 0 where
    pub repo : e.target_repo ≡ plan.target_repo
    pub commit : e.target_sha ≡ plan.target_sha
    pub image : e.image_digest ≡ plan.image_digest
    pub provider : e.provider ≡ plan.provider
    pub resource : e.provider_resource_id ≡ plan.provider_resource_id
    pub reference : e.authorization_reference ≡ plan.authorization_reference
    pub runtime : int_le plan.max_runtime_minutes b.runtime ≡ true
    pub cost : decimal_le plan.max_cost_usd b.cost ≡ true

  check_exact-IsExact :
      (e : HumanAuthorizationEvidence) (plan : ApprovedExecutionPlan) (b : Bounds)
      → check_exact e plan b ≡ ok tt
      → IsExact plan e b
  unfolding check_exact
  check_exact-IsExact e plan b exacts =
      let (repo, x1) = guard->>-eq-ok (same_text e.target_repo plan.target_repo) _ _ exacts in
      let (commit, x2) = guard->>-eq-ok (same_text e.target_sha plan.target_sha) _ _ x1 in
      let (image, x3) = guard->>-eq-ok (same_text e.image_digest plan.image_digest) _ _ x2 in
      let (provider, x4) = guard->>-eq-ok (same_text e.provider plan.provider) _ _ x3 in
      let (resource, x5) =
        guard->>-eq-ok (same_text e.provider_resource_id plan.provider_resource_id) _ _ x4 in
      let (_, x6) =
        guard->>-eq-ok
          (elim (as_int e.gpu_count) [ none ↦ false | some n ↦ int_eq n plan.gpu_count ]) _ _ x5 in
      let (reference, x7) =
        guard->>-eq-ok (same_text e.authorization_reference plan.authorization_reference) _ _ x6 in
      let (runtime, x8) = guard->>-eq-ok (int_le plan.max_runtime_minutes b.runtime) _ _ x7 in
      record {
        repo = same_text→eq e.target_repo plan.target_repo repo;
        commit = same_text→eq e.target_sha plan.target_sha commit;
        image = same_text→eq e.image_digest plan.image_digest image;
        provider = same_text→eq e.provider plan.provider provider;
        resource = same_text→eq e.provider_resource_id plan.provider_resource_id resource;
        reference = same_text→eq e.authorization_reference plan.authorization_reference reference;
        runtime = runtime;
        cost = ground arith;
      }

  validate_for_live_plan-IsBound :
      (e : HumanAuthorizationEvidence) (plan : ApprovedExecutionPlan) (actor sha record_id : Text)
      (now : DateTime) (b : Bounds)
      → validate_for_live_plan e plan actor sha record_id now ≡ ok b
      → IsBound plan e actor sha record_id × InForce plan e now b
  unfolding validate_for_live_plan
  validate_for_live_plan-IsBound e plan actor sha record_id now b r =
      let (shape, r1) = >>-eq-ok (as_human (validate_shape plan)) _ r in
      let (c, bounds, r2) = >>=-eq-ok (validate_human e) _ r1 in
      let (_, r3) = >>-eq-ok (require_now now) _ r2 in
      let (begun, r4) = guard->>-eq-ok (not_after c.authorized now) _ _ r3 in
      let (lasts, r5) = guard->>-eq-ok (before now c.valid_until) _ _ r4 in
      let (who, named, r6) = >>=-eq-ok (human (text actor) "expected_actor") _ r5 in
      let (actor_same, r7) = guard->>-eq-ok (same_text e.actor (text who)) _ _ r6 in
      let (control, r8) =
        guard->>-eq-ok (same_text e.control_plane_sha (text sha) && is_sha40_text sha) _ _ r7 in
      let (decision, read, r9) =
        >>=-eq-ok (human (text record_id) "expected_decision_record_id") _ r8 in
      let (recorded, r10) =
        guard->>-eq-ok (same_text e.decision_record_id (text decision)) _ _ r9 in
      let (print, r11) =
        guard->>-eq-ok (same_text e.plan_fingerprint (text (fingerprint plan))) _ _ r10 in
      let (exacts, r12) = >>-eq-ok (check_exact e plan c) _ r11 in
      let exact_fields = check_exact-IsExact e plan c exacts in
      let same : c ≡ b = cc in
      let decision_same =
        plain_text_self human_authorization record_id decision "expected_decision_record_id" read in
      let who_same = plain_text_self human_authorization actor who "expected_actor" named in
      (
        record {
          shaped = as_human-eq-ok (validate_shape plan) shape;
          fingerprint_same = same_text→eq e.plan_fingerprint (text (fingerprint plan)) print;
          actor_same = same_text→eq e.actor (text who) actor_same ∙ ap text (sym who_same);
          control_same = same_text→eq e.control_plane_sha (text sha) (ground arith);
          decision_same =
              same_text→eq e.decision_record_id (text decision) recorded
              ∙ ap text (sym decision_same);
          repo_same = exact_fields.repo;
          sha_same = exact_fields.commit;
          image_same = exact_fields.image;
          provider_same = exact_fields.provider;
          resource_same = exact_fields.resource;
          reference_same = exact_fields.reference;
        },
        subst (InForce plan e now) same (record {
          stated = validate_human-IsStated e c bounds;
          begun = begun;
          lasts = lasts;
          runtime = exact_fields.runtime;
          cost = exact_fields.cost;
        }),
      )

  made :
      (plan : ApprovedExecutionPlan) (e : HumanAuthorizationEvidence)
      (paid : PaidAuthorizationEvidence) (permit : LiveExecutionPermit)
      → ok (permit_of plan e paid) ≡ ok permit
      → permit ≡ permit_of plan e paid
  made plan e paid permit r = cc

  authorize_live_plan-IsBound :
      (plan : ApprovedExecutionPlan) (e : HumanAuthorizationEvidence)
      (paid : PaidAuthorizationEvidence) (sha record_id : Text) (now : DateTime)
      (permit : LiveExecutionPermit)
      → authorize_live_plan plan e paid sha record_id now ≡ ok permit
      → (b : Bounds) × IsBound plan e paid.actor sha record_id
        × InForce plan e now b
        × (is_live paid.repository_security_reference ≡ true)
        × (permit ≡ permit_of plan e paid)
  unfolding authorize_live_plan
  authorize_live_plan-IsBound plan e paid sha record_id now permit r =
      let (b, valid, r1) =
        >>=-eq-ok (validate_for_live_plan e plan paid.actor sha record_id now) _ r in
      let (_, r2) = guard->>-eq-ok (text_eq paid.actor paid.triggering_actor) _ _ r1 in
      let (live, r3) = guard->>-eq-ok (is_live paid.repository_security_reference) _ _ r2 in
      let (_, r4) = >>-eq-ok (validate_permit (permit_of plan e paid) plan now) _ r3 in
      let (bound, force) =
        validate_for_live_plan-IsBound e plan paid.actor sha record_id now b valid in
      (b, bound, force, live, made plan e paid permit r4)

-- Where the reference is live, the policy is, and there was evidence that meets it.
live_evidence :
    (on : Bool) (evidence : Option RepositorySecurityEvidence) (policy : Fields) (reference : Value)
    → repository_reference on evidence policy ≡ ok reference
    → is_live reference ≡ true
    → (on ≡ true)
      × (r : RepositorySecurityEvidence) × (evidence ≡ some r)
      × (validate_against_policy r policy ≡ ok tt)
unfolding repository_reference
live_evidence false evidence policy reference e live =
    absurd (ground (arith, text_eq_refl (codes "not-live")))
live_evidence true none policy reference e live = cc
live_evidence true (some r) policy reference e live =
    let (valid, _) = >>-eq-ok (as_paid (validate_against_policy r policy)) _ e in
    (refl, r, refl, as_paid-eq-ok (validate_against_policy r policy) valid)

-- When paid authorization and then live authorization succeed, the human authorization is bound to
-- the approved plan: its fingerprint, repository, commit, image, provider, resource and reference are
-- the plan's, and its control-plane commit and decision record are those that were asked for. The
-- actor of the human authorization is the actor that the policy names, who also
-- triggered the run; the time is inside the validity that the evidence states, which is at most 15
-- minutes; the plan's runtime and cost are within those that the evidence states; and the policy has
-- live paid compute enabled, with repository evidence that meets it.
pub live_permit_binds :
    ⦃h : Host⦄ (is_decimal : Text → Bool) (c : PaidExecutionContext) (policy : Fields)
    (evidence : Option RepositorySecurityEvidence) (live : Bool) (paid : PaidAuthorizationEvidence)
    (plan : ApprovedExecutionPlan) (e : HumanAuthorizationEvidence) (sha record_id : Text)
    (now : DateTime) (permit : LiveExecutionPermit)
    → authorize_paid_execution is_decimal c policy evidence live ≡ ok paid
    → authorize_live_plan plan e paid sha record_id now ≡ ok permit
    → (authority : IsAuthorized policy evidence paid) × IsBound plan e authority.identity.actor sha
        record_id
      × (paid.triggering_actor ≡ authority.identity.actor)
      × (permit ≡ permit_of plan e paid)
      × ((b : Bounds) × InForce plan e now b)
      × (is_true (get (codes "live_paid_compute_enabled") policy) ≡ true)
      × (r : RepositorySecurityEvidence) × (evidence ≡ some r)
      × (validate_against_policy r policy ≡ ok tt)
live_permit_binds is_decimal c policy evidence live paid plan e sha record_id now permit authorized
      permitted =
    let authority =
      authorize_paid_execution-IsAuthorized is_decimal c policy evidence live paid authorized in
    let (b, bound, force, on, same) =
      authorize_live_plan-IsBound plan e paid sha record_id now permit permitted in
    let (enabled, r, given, valid) =
      live_evidence (is_true (get (codes "live_paid_compute_enabled") policy)) evidence policy
        paid.repository_security_reference authority.reference on in
    (
      authority,
      subst (λ who. IsBound plan e who sha record_id) authority.actor_same bound,
      authority.trigger_same ∙ authority.actor_same,
      same,
      (b, force),
      enabled,
      r,
      given,
      valid,
    )
