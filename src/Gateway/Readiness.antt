-- ===== src/Gateway/Readiness.antt =====
-- Every tick that is about to call `start` of a backend has checked the plan of a run of the store.
use gpu_control.Base.{
  ℕ, ◌≡◌, true, false, inl, inr, some, List, [], ◌∷◌, Text, is_empty, All, Option-cases,
  Result-cases, ok, arith,
}
use gpu_control.Host.{Host}
use gpu_control.Gateway.Runs.{Store}
use gpu_control.Gateway.Deployment.{Deployment}
use gpu_control.Gateway.Evolution.{Evolved-refl, Evolves}
use gpu_control.Gateway.Slots.{IsConsistent}
use gpu_control.Gateway.Leases.{Job, claim}
use gpu_control.Gateway.Claims.{Claimed, claim-Claimed, idle_claim-Keeps}
use gpu_control.Gateway.Worker.{
  Answers, Task, Phase, starting, reconciling, storing, adopting, watching, stopping, inspecting,
  settling, closing, finishing, begin, advance,
}
use gpu_control.Gateway.Steps.{HasToken, advance-Keeps}
use gpu_control.Gateway.Beginning.{begin-Begun}
use gpu_control.Gateway.Starting.{Clears, begin-Clears}
use gpu_control.Gateway.System.{
  World, Event, served, claims, advances, crashes, is_drawn_event, first_world, pick, claim_step,
  tick_step, step, run,
}
use gpu_control.Gateway.Safety.{IsSafe, step-Progress}
use gpu_control.Gateway.Guarantees.{first-IsSafe}
use gpu_control.Gateway.Ready.{IsReady, pick-All, Ready, ticks-Evolve, put-Ready}

module _ ⦃h : Host⦄ (g : Deployment) where
  abbrev limit : ℕ
  limit = g.settings.max_inflight

  -- A tick that has just begun on a claimed job.
  begin-Ready :
      (token : Text) (s s' : Store) (j : Job) (later : ℕ) (p : Phase)
      → Claimed limit s s' token j
      → begin g j later ≡ ok p
      → Ready g s'.rows p
  unfolding Clears
  begin-Ready token s s' j later (starting k) claimed e =
      let about = (begin-Begun g j later (starting k) e).about in
      let (queued, cleared) = begin-Clears g j later (starting k) e in
      record {
        fresh = rw about (claimed.fresh queued);
        approved = rw about claimed.approved;
        cleared = cleared;
        row = j.row;
        stored = claimed.stored;
        evolved = rw about (Evolved-refl j.row);
      }
  begin-Ready token s s' j later (reconciling k) claimed e = tt
  begin-Ready token s s' j later (storing k handle) claimed e = tt
  begin-Ready token s s' j later (adopting k handle) claimed e = tt
  begin-Ready token s s' j later (watching k handle) claimed e = tt
  begin-Ready token s s' j later (stopping k handle) claimed e = tt
  begin-Ready token s s' j later (inspecting k handle cancelling) claimed e = tt
  begin-Ready token s s' j later (settling k x) claimed e = tt
  begin-Ready token s s' j later (closing k state error) claimed e = tt
  begin-Ready token s s' j later (finishing k state result) claimed e = tt

  abbrev AllReady : World → Type 0
  AllReady w = All (Ready g w.store.rows) w.ticks

  claim_rows-Evolve :
      (now : ℕ) (token : Text) (s : Store)
      → is_empty token ≡ false
      → IsConsistent limit s
      → Evolves s.rows (claim now token s).1.rows
  claim_rows-Evolve now token s drawn c = elim (Option-cases (claim now token s).0) [
    | inl idle ↦ (idle_claim-Keeps limit now token s c idle).evolves
    | inr (j, at) ↦ (claim-Claimed limit now token s j c drawn at).keeps.evolves
  ]

  claim_step-Ready :
      (now later : ℕ) (token : Text) (w : World)
      → is_empty token ≡ false
      → IsSafe limit w
      → AllReady w
      → AllReady (claim_step g now later token w)
  unfolding claim_step
  claim_step-Ready now later token w drawn safe ready =
      let s' = (claim now token w.store).1 in
      let evolves = claim_rows-Evolve now token w.store drawn safe.consistent in
      let kept = ticks-Evolve g w.store.rows s'.rows w.ticks evolves ready in
      elim (Option-cases (claim now token w.store).0) [
        | inl idle ↦ rw (idle, claim_step) kept
        | inr (j, at) ↦ elim (Result-cases (begin g j later)) [
          | inr (x, raised) ↦ rw (at, raised, claim_step) kept
          | inl (p, begins) ↦
              let claimed = claim-Claimed limit now token w.store j safe.consistent drawn at in
              rw (at, begins, claim_step)
                (begin-Ready token w.store s' j later p claimed begins, kept)
        ]
      ]

  tick_step-Ready :
      (n : ℕ) (a : Answers) (w : World) → IsSafe limit w → AllReady w → AllReady (tick_step g n a w)
  unfolding tick_step
  tick_step-Ready n a w safe ready = elim (Option-cases (pick n w.ticks)) [
    | inl missing ↦ rw (missing, tick_step) ready
    | inr ((p, ps), at) ↦
        let token = (pick-All HasToken n w.ticks p ps safe.tokens at).0 in
        let (kept, follows) = advance-Keeps g p a w.store safe.consistent token in
        let rest = (pick-All (Ready g w.store.rows) n w.ticks p ps ready at).1 in
        let s' = (advance g p a w.store).1 in
        rw (at, tick_step)
          (put-Ready g s'.rows (advance g p a w.store).0 ps follows
            (ticks-Evolve g w.store.rows s'.rows ps kept.evolves rest))
  ]

  step-Ready :
      (w : World) (e : Event)
      → is_drawn_event e ≡ true
      → IsSafe limit w
      → AllReady w
      → AllReady (step g w e)
  unfolding step
  step-Ready w (served q) drawn safe ready =
      let evolves = (step-Progress g w (served q) drawn safe).evolves in
      ticks-Evolve g w.store.rows (step g w (served q)).store.rows w.ticks evolves ready
  step-Ready w (claims now later token) drawn safe ready =
      claim_step-Ready now later token w (ground arith) safe ready
  step-Ready w (advances n a) drawn safe ready = tick_step-Ready n a w safe ready
  step-Ready w (crashes n) drawn safe ready = elim (Option-cases (pick n w.ticks)) [
    | inl missing ↦ rw (missing, step) ready
    | inr ((p, ps), at) ↦ rw (at, step) (pick-All (Ready g w.store.rows) n w.ticks p ps ready at).1
  ]

  run-Ready :
      (w : World) (events : List Event)
      → All (λ e. is_drawn_event e ≡ true) events
      → IsSafe limit w
      → AllReady w
      → AllReady (run g w events)
  unfolding run
  run-Ready w [] drawn safe ready = ready
  run-Ready w (e ∷ es) drawn safe ready =
      run-Ready (step g w e) es drawn.1 (step-Progress g w e drawn.0 safe).safe
        (step-Ready w e drawn.0 safe ready)

  -- Whenever, in a history of requests, claims, worker steps and crashes in which the drawn ids are
  -- not empty, a tick is about to call `start` of a backend, its run was taken out of the queue by
  -- this claim and has an approval id; the digest of its plan is the fingerprint of its row, the approval
  -- has not run out at the time of the tick, the provider is enabled, the cost ceiling is within
  -- what the operator allows, and the price is within the ceiling by a quote that is still valid,
  -- or the provider is the demo; and the run is a row of the store, with the same identity.
  pub starts_as_approved :
      (events : List Event) (n : ℕ) (k : Task) (others : List Phase)
      → All (λ e. is_drawn_event e ≡ true) events
      → pick n (run g first_world events).ticks ≡ some (starting k, others)
      → IsReady g (run g first_world events).store.rows k
  starts_as_approved events n k others drawn at =
      let w = run g first_world events in
      let ready = run-Ready first_world events drawn (first-IsSafe g) tt in
      (pick-All (Ready g w.store.rows) n w.ticks (starting k) others ready at).0
