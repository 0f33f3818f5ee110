-- ===== src/Gateway/Claims.antt =====
-- The claim of the worker, and what it does to the store.
use gpu_control.Base.{
  ℕ, ◌+◌, ◌≡◌, refl, sym, ◌∙◌, true, false, ◌&&◌, inl, inr, none, some, List, [], ◌∷◌, Text,
  text_eq, text_eq_refl, is_empty, Bool-cases, Option-cases, arith, if◌then◌else◌,
}
use mathlib.Core.Path.{subst}
use gpu_control.Gateway.Runs.{
  RunState, awaiting_approval, approved, queued, submitting, submit_unknown, running, succeeded,
  failed, cancelled, expired, Run, Store, has_id, update_runs,
}
use gpu_control.Gateway.Rows.{Among, Among-update_runs, total, total-update_runs, All-Among}
use gpu_control.Gateway.Service.{is_waiting}
use gpu_control.Gateway.LifeCycle.{in_flight, Leads, stays, begins, flies, one_move}
use gpu_control.Gateway.Evolution.{Evolves-refl, left_weight}
use gpu_control.Gateway.Slots.{occupies, past_approval, IsSound, IsConsistent, Keeps, change_row}
use gpu_control.Gateway.Leases.{
  Job, is_active, is_queued, is_claimable, is_sooner, earliest, claimed_state, claimed, claim,
}

pub earliest-Among :
    (now : ℕ) (rows : List Run) (r : Run)
    → earliest now rows ≡ some r
    → Among r rows × (is_claimable now r ≡ true)
unfolding earliest
earliest-Among now [] r e = cc
earliest-Among now (q ∷ rs) r e = elim (Bool-cases (is_claimable now q)) [
  | inr no' ↦ let (among, passes) = earliest-Among now rs r (ground arith) in (inr among, passes)
  | inl yes' ↦ elim (Option-cases (earliest now rs)) [
    | inl alone ↦
        let same : q ≡ r = ground arith in
        (inl (sym same), subst (λ x. is_claimable now x ≡ true) same yes')
    | inr (p, rest) ↦ elim (Bool-cases (is_sooner p q)) [
      | inl sooner ↦
          let same : p ≡ r = ground arith in
          let (among, passes) = earliest-Among now rs p rest in
          (
            inr (subst (λ x. Among x rs) same among),
            subst (λ x. is_claimable now x ≡ true) same passes,
          )
      | inr later ↦
          let same : q ≡ r = ground arith in
          (inl (sym same), subst (λ x. is_claimable now x ≡ true) same yes')
    ]
  ]
]

-- What a claim does to a state that it asks for.
record Moves (t : RunState) : Type 0 where
  pub path : Leads t (claimed_state t)
  pub flies' : in_flight (claimed_state t) ≡ true
  pub full : occupies t ≡ true
  pub full_after : occupies (claimed_state t) ≡ true
  pub past : past_approval t ≡ true
  pub gone_after : is_waiting (claimed_state t) ≡ false
  pub gone : is_waiting t ≡ is_queued t

claimed_state-Moves : (t : RunState) → is_active t ≡ true → Moves t
unfolding claimed_state is_waiting
claimed_state-Moves awaiting_approval e = cc
claimed_state-Moves approved e = cc
claimed_state-Moves queued e = record {
  path = one_move begins;
  flies' = refl;
  full = refl;
  full_after = refl;
  past = refl;
  gone_after = refl;
  gone = refl;
}
claimed_state-Moves submitting e = record {
  path = one_move (flies submitting submit_unknown refl refl);
  flies' = refl;
  full = refl;
  full_after = refl;
  past = refl;
  gone_after = refl;
  gone = refl;
}
claimed_state-Moves submit_unknown e = record {
  path = stays;
  flies' = refl;
  full = refl;
  full_after = refl;
  past = refl;
  gone_after = refl;
  gone = refl;
}
claimed_state-Moves running e = record {
  path = stays;
  flies' = refl;
  full = refl;
  full_after = refl;
  past = refl;
  gone_after = refl;
  gone = refl;
}
claimed_state-Moves succeeded e = cc
claimed_state-Moves failed e = cc
claimed_state-Moves cancelled e = cc
claimed_state-Moves expired e = cc

-- Only a run that was queued is submitting behind a claim.
claimed_queued : (t : RunState) → is_queued t ≡ true → claimed_state t ≡ submitting
unfolding claimed_state
claimed_queued queued e = refl
claimed_queued t e = ground arith

-- A job weighs one for its id if it was queued.
abbrev pub submission_weight : Text → Job → ℕ
submission_weight i j = if j.was_queued && text_eq j.row.id i then 1 else 0

pub record Claimed (limit : ℕ) (s s' : Store) (token : Text) (j : Job) : Type 0 where
  pub keeps : Keeps limit s s'
  pub leased : j.row.lease_token ≡ token
  pub stored : Among j.row s'.rows
  pub fresh : j.was_queued ≡ true → j.row.state ≡ submitting
  pub approved : is_empty j.row.approval_id ≡ false
  pub left :
      (i : Text)
      → total (left_weight i) s'.rows ≡ total (left_weight i) s.rows + submission_weight i j

module _ (limit : ℕ) where
  claimed-Claimed :
      (now : ℕ) (token : Text) (s : Store) (r : Run)
      → IsConsistent limit s
      → is_empty token ≡ false
      → Among r s.rows
      → is_claimable now r ≡ true
      → Claimed limit s
          (record s {
            worker_seen_at = now;
            rows = update_runs (has_id r.id) (claimed now token) s.rows;
          })
          token
          (record { row = claimed now token r; was_queued = is_queued r.state })
  claimed-Claimed now token s r c drawn among passes =
      let sound = All-Among IsSound s.rows r c.sound among in
      let moves = claimed_state-Moves r.state (ground arith) in
      let s1 : Store = record s { worker_seen_at = now } in
      let c1 : IsConsistent limit s1 = record {
        distinct = c.distinct;
        sound = c.sound;
        slots = c.slots;
        within = c.within;
      } in
      let f = claimed now token in
      let here = text_eq_refl r.id in
      let after : IsSound (f r) = record {
        slot = sound.slot ∙ moves.full ∙ sym moves.full_after;
        lease = λ e. absurd (ground (arith, moves.flies'));
        approval = λ e. sound.approval moves.past;
      } in
      let kept =
        change_row limit s1 r.id f r c1 among here (λ q. refl) after refl
          (record { kept = refl; path = moves.path }) in
      record {
        keeps = record { consistent = kept.consistent; evolves = kept.evolves };
        leased = refl;
        stored = Among-update_runs (has_id r.id) f s.rows r among here;
        fresh = claimed_queued r.state;
        approved = sound.approval moves.past;
        left = λ i. ground (
          arith,
          total-update_runs (left_weight i) r.id f s.rows r c.distinct among here,
          moves.gone,
          moves.gone_after,
        );
      }

  -- A claim with a token keeps the invariant, and takes out of the queue what it says was queued.
  pub claim-Claimed :
      (now : ℕ) (token : Text) (s : Store) (j : Job)
      → IsConsistent limit s
      → is_empty token ≡ false
      → (claim now token s).0 ≡ some j
      → Claimed limit s (claim now token s).1 token j
  unfolding claim
  claim-Claimed now token s j c drawn e = elim (Option-cases (earliest now s.rows)) [
    | inl idle ↦ absurd (ground arith)
    | inr (r, at) ↦
        let (among, passes) = earliest-Among now s.rows r at in
        let whole = claimed-Claimed now token s r c drawn among passes in
        let same : record { row = claimed now token r; was_queued = is_queued r.state } ≡ j =
          ground arith in
        rw (at, claim) (subst (Claimed limit s _ token) same whole)
  ]

  pub idle_claim-Keeps :
      (now : ℕ) (token : Text) (s : Store)
      → IsConsistent limit s
      → (claim now token s).0 ≡ none
      → Keeps limit s (claim now token s).1
  unfolding claim
  idle_claim-Keeps now token s c e = elim (Option-cases (earliest now s.rows)) [
    | inr (r, at) ↦ absurd (ground arith)
    | inl idle ↦
        rw (idle, claim)
          (record {
            consistent = record {
              distinct = c.distinct;
              sound = c.sound;
              slots = c.slots;
              within = c.within;
            };
            evolves = Evolves-refl s.rows;
          })
  ]
