-- ===== src/Gateway/Safety.antt =====
-- The invariant of the gateway under every interleaving of requests, workers and crashes.
use gpu_control.Base.{
  ℕ, zero, suc, ◌+◌, ◌≤◌, ◌≡◌, refl, true, false, inl, inr, Option, none, some, List, [], ◌∷◌, Text,
  text_eq, is_empty, All, Option-cases, Result-cases, arith, if◌then◌else◌,
}
use mathlib.Core.Path.{subst}
use gpu_control.Host.{Host}
use gpu_control.Gateway.Runs.{Store}
use gpu_control.Gateway.Rows.{total}
use gpu_control.Gateway.Deployment.{Deployment}
use gpu_control.Gateway.Evolution.{
  Evolves, Evolves-refl, Evolves-trans, left_weight, left_weight-Evolves,
}
use gpu_control.Gateway.Slots.{IsConsistent, Keeps}
use gpu_control.Gateway.Requests.{serve, serve-Keeps}
use gpu_control.Gateway.Leases.{claim}
use gpu_control.Gateway.Claims.{claim-Claimed, idle_claim-Keeps}
use gpu_control.Gateway.Worker.{
  Answers, Phase, starting, reconciling, storing, adopting, watching, stopping, inspecting,
  settling, closing, finishing, begin, advance,
}
use gpu_control.Gateway.Steps.{due_weight, HasToken, Follows, advance-Keeps}
use gpu_control.Gateway.Beginning.{begin-Begun}
use gpu_control.Gateway.System.{
  World, Event, served, claims, advances, crashes, is_drawn_event, pick, put, called, claim_step,
  tick_step, step, run,
}

abbrev pub times : Text → List Text → ℕ
times i [] = 0
times i (j ∷ js) = (if text_eq j i then 1 else 0) + times i js

abbrev pub due : Text → List Phase → ℕ
due i [] = 0
due i (p ∷ ps) = due_weight i p + due i ps

-- The store is consistent, every tick has a token, and a run has left the queue for every start of it
-- that was made or is to come.
pub record IsSafe (limit : ℕ) (w : World) : Type 0 where
  pub consistent : IsConsistent limit w.store
  pub tokens : All HasToken w.ticks
  pub starts : (i : Text) → due i w.ticks + times i w.starts ≤ total (left_weight i) w.store.rows

pub record Progress (limit : ℕ) (w w' : World) : Type 0 where
  pub safe : IsSafe limit w'
  pub evolves : Evolves w.store.rows w'.store.rows

record Picked (ps : List Phase) (p : Phase) (qs : List Phase) : Type 0 where
  pub token : HasToken p
  pub tokens : All HasToken qs
  pub count : (i : Text) → due i ps ≡ due_weight i p + due i qs

pick-Picked :
    (n : ℕ) (ps : List Phase) (p : Phase) (qs : List Phase)
    → All HasToken ps
    → pick n ps ≡ some (p, qs)
    → Picked ps p qs
unfolding pick
pick-Picked n [] p qs all e = cc
pick-Picked zero (o ∷ ps) p qs all e =
    let same : o ≡ p = ground arith in
    let rest : ps ≡ qs = ground arith in
    record {
      token = subst HasToken same all.0;
      tokens = subst (All HasToken) rest all.1;
      count = λ i. rw (same, rest) refl;
    }
pick-Picked (suc n) (o ∷ ps) p qs all e = elim (Option-cases (pick n ps)) [
  | inl missing ↦ absurd (ground arith)
  | inr ((q, others), at) ↦
      let picked = pick-Picked n ps q others all.1 at in
      let same : q ≡ p = ground arith in
      let rest : o ∷ others ≡ qs = ground arith in
      record {
        token = subst HasToken same picked.token;
        tokens = subst (All HasToken) rest (all.0, picked.tokens);
        count = λ i. rw (← same, ← rest) (omega (arith, picked.count i));
      }
]

called-times :
    (i : Text) (p : Phase) (starts : List Text)
    → times i (called p starts) ≡ due_weight i p + times i starts
unfolding called
called-times i (starting k) starts = omega arith
called-times i (reconciling k) starts = omega arith
called-times i (storing k handle) starts = omega arith
called-times i (adopting k handle) starts = omega arith
called-times i (watching k handle) starts = omega arith
called-times i (stopping k handle) starts = omega arith
called-times i (inspecting k handle cancelling) starts = omega arith
called-times i (settling k e) starts = omega arith
called-times i (closing k state error) starts = omega arith
called-times i (finishing k state result) starts = omega arith

put-HasToken :
    (next : Option Phase) (ps : List Phase)
    → Follows next
    → All HasToken ps
    → All HasToken (put next ps)
put-HasToken none ps follows all = all
put-HasToken (some q) ps follows all = (follows.0, all)

put-due :
    (i : Text) (next : Option Phase) (ps : List Phase)
    → Follows next
    → due i (put next ps) ≡ due i ps
put-due i none ps follows = refl
put-due i (some q) ps follows = omega (arith, follows.1 i)

module _ ⦃h : Host⦄ (g : Deployment) where
  abbrev limit : ℕ
  limit = g.settings.max_inflight

  Keeps-Progress :
      (w : World) (s' : Store)
      → IsSafe limit w
      → Keeps limit w.store s'
      → Progress limit w (record w { store = s' })
  Keeps-Progress w s' safe kept = record {
    safe = record {
      consistent = kept.consistent;
      tokens = safe.tokens;
      starts = λ i.
          omega (arith, safe.starts i, left_weight-Evolves i w.store.rows s'.rows kept.evolves);
    };
    evolves = kept.evolves;
  }

  claim_step-Progress :
      (now later : ℕ) (token : Text) (w : World)
      → is_empty token ≡ false
      → IsSafe limit w
      → Progress limit w (claim_step g now later token w)
  unfolding claim_step
  claim_step-Progress now later token w drawn safe =
      let s' = (claim now token w.store).1 in
      elim (Option-cases (claim now token w.store).0) [
        | inl idle ↦
            rw (idle, claim_step)
              (Keeps-Progress w s' safe
                (idle_claim-Keeps limit now token w.store safe.consistent idle))
        | inr (j, at) ↦
            let claimed = claim-Claimed limit now token w.store j safe.consistent drawn at in
            elim (Result-cases (begin g j later)) [
              | inr (x, raised) ↦
                  rw (at, raised, claim_step) (Keeps-Progress w s' safe claimed.keeps)
              | inl (p, begins) ↦
                  let begun = begin-Begun g j later p begins in
                  rw (at, begins, claim_step)
                    (record {
                      safe = record {
                        consistent = claimed.keeps.consistent;
                        tokens = (rw (begun.about, claimed.leased) drawn, safe.tokens);
                        starts = λ i. omega (arith, safe.starts i, begun.due i, claimed.left i);
                      };
                      evolves = claimed.keeps.evolves;
                    })
            ]
      ]

  tick_step-Progress :
      (n : ℕ) (a : Answers) (w : World) → IsSafe limit w → Progress limit w (tick_step g n a w)
  unfolding tick_step
  tick_step-Progress n a w safe = elim (Option-cases (pick n w.ticks)) [
    | inl missing ↦
        rw (missing, tick_step) (record { safe = safe; evolves = Evolves-refl w.store.rows })
    | inr ((p, ps), at) ↦
        let picked = pick-Picked n w.ticks p ps safe.tokens at in
        let s' = (advance g p a w.store).1 in
        let (kept, follows) = advance-Keeps g p a w.store safe.consistent picked.token in
        rw (at, tick_step)
          (record {
            safe = record {
              consistent = kept.consistent;
              tokens = put-HasToken (advance g p a w.store).0 ps follows picked.tokens;
              starts = λ i. omega (
                arith,
                safe.starts i,
                picked.count i,
                put-due i (advance g p a w.store).0 ps follows,
                called-times i p w.starts,
                left_weight-Evolves i w.store.rows s'.rows kept.evolves,
              );
            };
            evolves = kept.evolves;
          })
  ]

  pub step-Progress :
      (w : World) (e : Event)
      → is_drawn_event e ≡ true
      → IsSafe limit w
      → Progress limit w (step g w e)
  unfolding step
  step-Progress w (served q) drawn safe =
      Keeps-Progress w (serve g q w.store).1 safe (serve-Keeps g q w.store safe.consistent drawn)
  step-Progress w (claims now later token) drawn safe =
      claim_step-Progress now later token w (ground arith) safe
  step-Progress w (advances n a) drawn safe = tick_step-Progress n a w safe
  step-Progress w (crashes n) drawn safe = elim (Option-cases (pick n w.ticks)) [
    | inl missing ↦ rw (missing, step) (record { safe = safe; evolves = Evolves-refl w.store.rows })
    | inr ((p, ps), at) ↦
        let picked = pick-Picked n w.ticks p ps safe.tokens at in
        rw (at, step)
          (record {
            safe = record {
              consistent = safe.consistent;
              tokens = picked.tokens;
              starts = λ i. omega (arith, safe.starts i, picked.count i);
            };
            evolves = Evolves-refl w.store.rows;
          })
  ]

  pub run-Progress :
      (w : World) (events : List Event)
      → All (λ e. is_drawn_event e ≡ true) events
      → IsSafe limit w
      → Progress limit w (run g w events)
  unfolding run
  run-Progress w [] drawn safe = record { safe = safe; evolves = Evolves-refl w.store.rows }
  run-Progress w (e ∷ es) drawn safe =
      let first = step-Progress w e drawn.0 safe in
      let rest = run-Progress (step g w e) es drawn.1 first.safe in
      record {
        safe = rest.safe;
        evolves =
            Evolves-trans w.store.rows (step g w e).store.rows (run g (step g w e) es).store.rows
              first.evolves rest.evolves;
      }
