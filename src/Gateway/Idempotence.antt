-- ===== src/Gateway/Idempotence.antt =====
-- A request that is sent again: the idempotency key answers with the run that is there.
use gpu_control.Base.{
  ℕ, ◌≡◌, refl, sym, ap, ◌∙◌, true, List, ◌∷◌, All, Text, text_eq, text_eq→eq, ok, err, arith,
  if◌then◌else◌,
}
use mathlib.Core.Path.{subst}
use gpu_control.Host.{Host}
use gpu_control.Gateway.Runs.{Run, Store, ExperimentPlan}
use gpu_control.Gateway.Rows.{Among, find_run-Among}
use gpu_control.Gateway.LifeCycle.{Leads}
use gpu_control.Gateway.Evolution.{Identity, identity, Evolves, find_run-Evolves}
use gpu_control.Gateway.Requests.{prepares, serve}
use gpu_control.Gateway.System.{Event, served, is_drawn_event, first_world, step, run}
use gpu_control.Gateway.Safety.{step-Progress, run-Progress}
use gpu_control.Gateway.Guarantees.{reached}
use gpu_control.Gateway.Deployment.{
  Principal, Prepare, Deployment, PublicRun, public_run, digest, request_dict,
}
use gpu_control.Gateway.Admission.{has_key, plan_experiment, prepare}
use gpu_control.Gateway.Keys.{Kept, conflict, prepared, answered, prepare-Kept}

-- The columns of a row that never change decide about a key.
has_key-identity :
    (owner key : Text) (r q : Run)
    → identity r ≡ identity q
    → has_key owner key r ≡ has_key owner key q
has_key-identity owner key r q e =
    let owners = ap (λ (x : Identity). x.owner) e in
    let keys = ap (λ (x : Identity). x.idempotency_key) e in rw (owners, keys) refl

module _ ⦃h : Host⦄ (g : Deployment) where
  -- What a key keeps is kept while the rows evolve, by the row as it is then.
  record Lasts (p : Principal) (q : Prepare) (hash : Text) (r : PublicRun) (s : Store)
      : Type 0 where
    pub row : Run
    pub stored : Among row s.rows
    pub same_id : row.id ≡ r.id
    pub owned : row.owner ≡ p.owner
    pub same_fingerprint : row.fingerprint ≡ r.fingerprint
    pub same_plan : row.plan ≡ r.plan
    pub moved : Leads r.state row.state
    pub kept : Kept p q hash (public_run row) s

  Kept-Lasts :
      (p : Principal) (q : Prepare) (hash : Text) (r : PublicRun) (s s' : Store)
      → Evolves s.rows s'.rows
      → Kept p q hash r s
      → Lasts p q hash r s'
  unfolding public_run
  Kept-Lasts p q hash r s s' evolves kept =
      let (row, at, evolved) =
        find_run-Evolves (has_key p.owner q.idempotency_key) s.rows s'.rows kept.row
          (has_key-identity p.owner q.idempotency_key) evolves kept.at in
      let (passes, among) = find_run-Among (has_key p.owner q.idempotency_key) s'.rows row at in
      let same = evolved.kept in
      record {
        row = row;
        stored = among;
        same_id = sym (ap (λ (x : Identity). x.id) same) ∙ ap (λ (x : PublicRun). x.id) kept.shown;
        owned = text_eq→eq row.owner p.owner (ground arith);
        same_fingerprint =
            sym (ap (λ (x : Identity). x.fingerprint) same)
            ∙ ap (λ (x : PublicRun). x.fingerprint) kept.shown;
        same_plan =
            sym (ap (λ (x : Identity). x.plan) same) ∙ ap (λ (x : PublicRun). x.plan) kept.shown;
        moved = subst (λ (x : PublicRun). Leads x.state row.state) kept.shown evolved.path;
        kept = record {
          row = row;
          at = at;
          hashed = sym (ap (λ (x : Identity). x.request_hash) same) ∙ kept.hashed;
          shown = refl;
        };
      }

  -- In every history of requests, claims, worker steps and crashes in which the drawn ids are not
  -- empty: once `prepare` has answered a request with a run, that run is in the store whatever
  -- follows, with the same id, owner, fingerprint and plan and in a state that its life cycle
  -- reaches. When the request is sent again later, while it is admissible, it is answered with that
  -- run as it is then, whatever id is drawn; and an admissible request of that owner with the same
  -- key and another digest is refused as a conflict. Neither changes the store.
  pub prepare_again :
      (past future : List Event) (p : Principal) (q q' : Prepare) (now later : ℕ)
      (id id' hash hash' : Text) (r : PublicRun) (plan : ExperimentPlan)
      → All (λ e. is_drawn_event e ≡ true) past
      → All (λ e. is_drawn_event e ≡ true) (served (prepares p q now id) ∷ future)
      → (prepare g p q now id (run g first_world past).store).0 ≡ ok r
      → digest (request_dict q) ≡ ok hash
      → q'.idempotency_key ≡ q.idempotency_key
      → digest (request_dict q') ≡ ok hash'
      → plan_experiment g p q' later ≡ ok plan
      → let s = (run g (run g first_world past) (served (prepares p q now id) ∷ future)).store in
        (row : Run) × Among row s.rows
        × (row.id ≡ r.id)
        × (row.owner ≡ p.owner)
        × (row.fingerprint ≡ r.fingerprint)
        × (row.plan ≡ r.plan)
        × Leads r.state row.state
        × (prepare g p q' later id' s
            ≡ (if text_eq hash hash' then ok (public_run row) else err conflict, s))
  unfolding run step serve
  prepare_again past future p q q' now later id id' hash hash' r plan drawn drawn' e dumped keyed
        dumped' planned =
      let w = run g first_world past in
      let w1 = step g w (served (prepares p q now id)) in
      let (hash0, dumped0, kept) = prepare-Kept g p q now id w.store r e in
      let same : hash0 ≡ hash = let both : ok hash0 ≡ ok hash = sym dumped0 ∙ dumped in cc in
      let first =
        step-Progress g w (served (prepares p q now id)) drawn'.0 (reached g past drawn) in
      let s = (run g w1 future).store in
      let lasts =
        Kept-Lasts p q hash0 r w1.store s (run-Progress g w1 future drawn'.1 first.safe).evolves
          kept in
      let kept' : Kept p q' hash (public_run lasts.row) s = record {
        row = lasts.kept.row;
        at = rw keyed lasts.kept.at;
        hashed = lasts.kept.hashed ∙ same;
        shown = lasts.kept.shown;
      } in
      (
        lasts.row,
        lasts.stored,
        lasts.same_id,
        lasts.owned,
        lasts.same_fingerprint,
        lasts.same_plan,
        lasts.moved,
        prepared g p q' later id' hash' plan s planned dumped'
            ∙ answered g p q' later id' hash hash' plan s (public_run lasts.row) kept',
      )
