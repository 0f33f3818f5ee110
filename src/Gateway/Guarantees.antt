-- ===== src/Gateway/Guarantees.antt =====
-- What the gateway guarantees in every history: any requests, any number of workers, any answers of the
-- backends, crashes at any point.
use gpu_control.Base.{
  ℕ, ◌≤◌, ◌≡◌, refl, sym, ap, ◌∙◌, true, false, inl, inr, List, [], ◌∷◌, Text, text_eq, text_eq→eq,
  is_empty, All, pos, Bool-cases, arith,
}
use mathlib.Core.Path.{subst}
use gpu_control.Host.{Host}
use gpu_control.Gateway.Runs.{Run, is_final, count_runs}
use gpu_control.Gateway.Rows.{Distinct, Among, total, All-Among}
use gpu_control.Gateway.Deployment.{Deployment}
use gpu_control.Gateway.LifeCycle.{Leads-final}
use gpu_control.Gateway.Evolution.{identity, Evolves, left_weight, follow}
use gpu_control.Gateway.Slots.{occupies, past_approval, IsSound, slot_weight}
use gpu_control.Gateway.System.{Event, is_drawn_event, first_world, run}
use gpu_control.Gateway.Safety.{times, IsSafe, run-Progress}

occupied_count :
    (rows : List Run)
    → All IsSound rows
    → total slot_weight rows ≡ count_runs (λ r. occupies r.state) rows
unfolding total count_runs
occupied_count [] sound = refl
occupied_count (r ∷ rs) sound = rw sound.0.slot (omega (arith, occupied_count rs sound.1))

none_left :
    (i : Text) (rows : List Run)
    → All (λ q. text_eq q.id i ≡ false) rows
    → total (left_weight i) rows ≡ 0
unfolding total
none_left i [] others = refl
none_left i (r ∷ rs) others = rw others.0 (omega (arith, none_left i rs others.1))

left_once : (i : Text) (rows : List Run) → Distinct rows → total (left_weight i) rows ≤ 1
unfolding total
left_once i [] distinct = omega arith
left_once i (r ∷ rs) distinct = elim (Bool-cases (text_eq r.id i)) [
  | inr other ↦ rw other (omega (arith, left_once i rs distinct.1))
  | inl here ↦
      let same = text_eq→eq r.id i here in
      let others = subst (λ t. All (λ q. text_eq q.id t ≡ false) rs) same distinct.0 in
      rw here (ground (arith, none_left i rs others))
]

module _ ⦃h : Host⦄ (g : Deployment) where
  abbrev limit : ℕ
  limit = g.settings.max_inflight

  pub first-IsSafe : IsSafe limit first_world
  unfolding total
  first-IsSafe = record {
    consistent = record { distinct = tt; sound = tt; slots = refl; within = omega arith };
    tokens = tt;
    starts = λ i. omega arith;
  }

  pub reached :
      (events : List Event)
      → All (λ e. is_drawn_event e ≡ true) events
      → IsSafe limit (run g first_world events)
  reached events drawn = (run-Progress g first_world events drawn first-IsSafe).safe

  -- In every history of requests, claims, worker steps and crashes in which the drawn ids are not
  -- empty, the counter of the control row is the number of the runs that are queued, submitting,
  -- of unknown submission or running, and that number is at most `max_inflight`.
  pub slots_bounded :
      (events : List Event)
      → All (λ e. is_drawn_event e ≡ true) events
      → let s = (run g first_world events).store in
        (s.active_count ≡ pos (count_runs (λ r. occupies r.state) s.rows))
        × (count_runs (λ r. occupies r.state) s.rows ≤ limit)
  slots_bounded events drawn =
      let s = (run g first_world events).store in
      let c = (reached events drawn).consistent in
      let same = occupied_count s.rows c.sound in
      (c.slots ∙ ap pos same, omega (arith, same, c.within))

  -- In every history of requests, claims, worker steps and crashes in which the drawn ids are not
  -- empty, `start` of a backend is called at most once for each run id: no crash, no expired lease
  -- and no second worker makes a run start again.
  pub started_once :
      (events : List Event) (i : Text)
      → All (λ e. is_drawn_event e ≡ true) events
      → times i (run g first_world events).starts ≤ 1
  started_once events i drawn =
      let safe = reached events drawn in
      omega (
        arith,
        safe.starts i,
        left_once i (run g first_world events).store.rows safe.consistent.distinct,
      )

  -- In every history of requests, claims, worker steps and crashes in which the drawn ids are not
  -- empty, a row that is approved or in a later state, other than cancelled, has an approval id.
  pub approved_first :
      (events : List Event) (r : Run)
      → All (λ e. is_drawn_event e ≡ true) events
      → Among r (run g first_world events).store.rows
      → past_approval r.state ≡ true
      → is_empty r.approval_id ≡ false
  approved_first events r drawn among past =
      (All-Among IsSound (run g first_world events).store.rows r
          (reached events drawn).consistent.sound among).approval
        past

  -- The rows implement the life cycle. From any point on of a history of requests, claims, worker
  -- steps and crashes in which the drawn ids are not empty, no row is dropped, the
  -- identity, the owner, the plan and the fingerprint of every row stay, its state makes moves of the
  -- abstract machine only, and so does a new row from `awaiting_approval`.
  pub rows_evolve :
      (past future : List Event)
      → All (λ e. is_drawn_event e ≡ true) past
      → All (λ e. is_drawn_event e ≡ true) future
      → Evolves
          (run g first_world past).store.rows
          (run g (run g first_world past) future).store.rows
  rows_evolve past future drawn drawn' =
      (run-Progress g (run g first_world past) future drawn' (reached past drawn)).evolves

  -- A run that has ended in a history whose drawn ids are not empty keeps its state whatever follows: its row is still there,
  -- with the same identity, owner and plan.
  pub ended_stays :
      (past future : List Event) (r : Run)
      → All (λ e. is_drawn_event e ≡ true) past
      → All (λ e. is_drawn_event e ≡ true) future
      → Among r (run g first_world past).store.rows
      → is_final r.state ≡ true
      → (q : Run) × Among q (run g (run g first_world past) future).store.rows
        × (identity r ≡ identity q)
        × (q.state ≡ r.state)
  ended_stays past future r drawn drawn' among ended =
      let rows = (run g first_world past).store.rows in
      let rows' = (run g (run g first_world past) future).store.rows in
      let (q, at, evolved) = follow rows rows' r (rows_evolve past future drawn drawn') among in
      (q, at, evolved.kept, sym (Leads-final evolved.path ended))
