-- ===== src/Gateway/Requests.antt =====
-- What clients may ask of the service.
use gpu_control.Base.{
  ℕ, ◌≡◌, Bool, true, not, inl, inr, Text, is_empty, codes, Bool-cases, Result-cases, Result, arith,
}
use gpu_control.Host.{Host}
use gpu_control.Gateway.Runs.{Store, transaction}
use gpu_control.Gateway.Deployment.{
  Principal, Prepare, Deployment, PublicRun, digest, request_dict, require_scope,
}
use gpu_control.Gateway.Admission.{plan_experiment, prepare_body, prepare}
use gpu_control.Gateway.Service.{approve_body, approve, submit_body, submit, cancel_body, cancel}
use gpu_control.Gateway.Slots.{IsConsistent, Keeps, Keeps-refl}
use gpu_control.Gateway.Transactions.{
  transaction-Keeps, then_owned-store, approve_body-Keeps, submit_body-Keeps, cancel_body-Keeps,
  prepare_body-Keeps,
}

-- What a client may ask for, with the times and the ids that the service draws.
pub data Request : Type 0 where
  prepares : Principal → Prepare → ℕ → Text → Request
  approves : Principal → Text → Text → ℕ → Text → Request
  submits : Principal → Text → ℕ → Request
  cancels : Principal → Text → Request

-- `uuid.uuid4()` gives no empty text.
abbrev pub is_drawn : Request → Bool
is_drawn (approves p run_id fingerprint now approval_id) = not (is_empty approval_id)
is_drawn _ = true

module _ ⦃h : Host⦄ (g : Deployment) where
  unfoldable pub serve : Request → Store → Result PublicRun × Store
  serve (prepares p q now new_id) s = prepare g p q now new_id s
  serve (approves p run_id fingerprint now approval_id) s =
      approve g p run_id fingerprint now approval_id s
  serve (submits p run_id now) s = submit g p run_id now s
  serve (cancels p run_id) s = cancel p run_id s

  pub serve-Keeps :
      (q : Request) (s : Store)
      → IsConsistent g.settings.max_inflight s
      → is_drawn q ≡ true
      → Keeps g.settings.max_inflight s (serve q s).1
  unfolding serve prepare approve submit cancel
  serve-Keeps (prepares p q now new_id) s c drawn =
      elim (Result-cases (plan_experiment g p q now)) [
        | inr (x, raised) ↦ rw (raised, prepare) (Keeps-refl g.settings.max_inflight s c)
        | inl (plan, planned) ↦ elim (Result-cases (digest (request_dict q))) [
          | inr (x, raised) ↦ rw (planned, raised, prepare) (Keeps-refl g.settings.max_inflight s c)
          | inl (hash, dumped) ↦
              let body = prepare_body g p q now new_id plan hash in
              rw (planned, dumped, prepare, then_owned-store g p new_id (transaction body s))
                (transaction-Keeps g body s (prepare_body-Keeps g p q now new_id plan hash) c)
        ]
      ]
  serve-Keeps (approves p run_id fingerprint now approval_id) s c drawn =
      let body = approve_body g p run_id fingerprint now approval_id in
      elim (Bool-cases p.browser) [
        | inr api ↦ ground (arith, Keeps-refl g.settings.max_inflight s c)
        | inl web ↦ elim (Result-cases (require_scope p (codes "experiments:run"))) [
          | inr (x, raised) ↦ rw (raised, approve) (Keeps-refl g.settings.max_inflight s c)
          | inl (_, allowed) ↦
              rw (allowed, web, approve, then_owned-store g p run_id (transaction body s))
                (transaction-Keeps g body s
                  (approve_body-Keeps g p run_id fingerprint now approval_id (ground arith)) c)
        ]
      ]
  serve-Keeps (submits p run_id now) s c drawn =
      let body = submit_body g p run_id now in
      elim (Result-cases (require_scope p (codes "experiments:run"))) [
        | inr (x, raised) ↦ rw (raised, submit) (Keeps-refl g.settings.max_inflight s c)
        | inl (_, allowed) ↦
            rw (allowed, submit, then_owned-store g p run_id (transaction body s))
              (transaction-Keeps g body s (submit_body-Keeps g p run_id now) c)
      ]
  serve-Keeps (cancels p run_id) s c drawn =
      let body = cancel_body p run_id in
      elim (Result-cases (require_scope p (codes "experiments:cancel"))) [
        | inr (x, raised) ↦ rw (raised, cancel) (Keeps-refl g.settings.max_inflight s c)
        | inl (_, allowed) ↦
            rw (allowed, cancel, then_owned-store g p run_id (transaction body s))
              (transaction-Keeps g body s (cancel_body-Keeps g p run_id) c)
      ]
