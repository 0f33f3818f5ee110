-- ===== src/Gateway/Writes.antt =====
-- The writes of a worker that holds a lease, and what they do to the store.
use gpu_control.Base.{
  ℕ, ◌≡◌, refl, sym, ap, ◌∙◌, true, false, ◌||◌, not, inl, inr, Option, [], text_eq, text_eq→eq,
  is_empty, String, Bool-cases, Option-cases, Result-cases, ok, arith, if◌then◌else◌,
}
use mathlib.Core.Path.{subst}
use gpu_control.Value.{Value}
use gpu_control.Gateway.Runs.{
  RunState, awaiting_approval, approved, queued, submitting, submit_unknown, running, succeeded,
  failed, cancelled, expired, is_final, Run, Store, minus_one, has_id, find_run, update_runs,
}
use gpu_control.Gateway.Rows.{
  find_run-Among, All-Among, All-update_where, total-update_where-eq, Distinct-update_runs,
}
use gpu_control.Gateway.Deployment.{Settings}
use gpu_control.Gateway.LifeCycle.{in_flight, Leads, ends, one_move}
use gpu_control.Gateway.Evolution.{Identity, identity, Evolves-update_where}
use gpu_control.Gateway.Slots.{
  occupies, past_approval, IsSound, IsConsistent, Keeps, Keeps-refl, slot_weight, give_slot,
}
use gpu_control.Gateway.Leases.{holds_lease, update, kept_result, finish}

in_flight-occupies :
    (t : RunState) → in_flight t ≡ true → (occupies t ≡ true) × (past_approval t ≡ true)
in_flight-occupies submitting e = (refl, refl)
in_flight-occupies submit_unknown e = (refl, refl)
in_flight-occupies running e = (refl, refl)
in_flight-occupies awaiting_approval e = cc
in_flight-occupies approved e = cc
in_flight-occupies queued e = cc
in_flight-occupies succeeded e = cc
in_flight-occupies failed e = cc
in_flight-occupies cancelled e = cc
in_flight-occupies expired e = cc

final-not-occupies : (t : RunState) → is_final t ≡ true → occupies t ≡ false
unfolding is_final
final-not-occupies awaiting_approval e = cc
final-not-occupies approved e = cc
final-not-occupies queued e = cc
final-not-occupies submitting e = cc
final-not-occupies submit_unknown e = cc
final-not-occupies running e = cc
final-not-occupies succeeded e = refl
final-not-occupies failed e = refl
final-not-occupies cancelled e = refl
final-not-occupies expired e = refl

-- A row that holds the token of a job is in flight.
pub holds_lease-IsSound :
    (job r : Run)
    → is_empty job.lease_token ≡ false
    → text_eq r.lease_token job.lease_token ≡ true
    → IsSound r
    → in_flight r.state ≡ true
holds_lease-IsSound job r drawn e sound =
    let same = text_eq→eq r.lease_token job.lease_token e in
    let drawn' : is_empty r.lease_token ≡ false = rw same drawn in
    elim (Bool-cases (in_flight r.state)) [
      | inl e' ↦ e'
      | inr e' ↦ let blank = sound.lease e' in absurd (ground arith)
    ]

module _ (limit : ℕ) where
  -- A change of the rows that hold a token: it keeps their slots, and their states stay in flight.
  pub update-Keeps :
      (s : Store) (job : Run) (change : Run → Run)
      → IsConsistent limit s
      → is_empty job.lease_token ≡ false
      → ((q : Run)
          → (identity q ≡ identity (change q))
            × ((change q).slot_reserved ≡ q.slot_reserved)
            × ((change q).approval_id ≡ q.approval_id))
      → ((q : Run)
          → in_flight q.state ≡ true
          → (in_flight (change q).state ≡ true) × Leads q.state (change q).state)
      → Keeps limit s (update job change s)
  unfolding update
  update-Keeps s job change c drawn keeps flies =
      let count =
        total-update_where-eq slot_weight (holds_lease job) change s.rows
          (λ q. rw (keeps q).1 refl) in
      record {
        consistent = record {
          distinct =
              Distinct-update_runs (holds_lease job) change s.rows
                (λ q. sym (ap (λ (x : Identity). x.id) (keeps q).0)) c.distinct;
          sound =
              All-update_where IsSound (holds_lease job) change s.rows
                (λ q test sound.
                  let before = holds_lease-IsSound job q drawn (ground arith) sound in
                  let after = (flies q before).0 in
                  let (full, past) = in_flight-occupies q.state before in
                  let (full', past') = in_flight-occupies (change q).state after in
                  record {
                    slot = (keeps q).1 ∙ sound.slot ∙ full ∙ sym full';
                    lease = λ e. absurd (ground arith);
                    approval = λ e. rw (keeps q).2 (sound.approval past);
                  })
                c.sound;
          slots = rw count c.slots;
          within = rw count c.within;
        };
        evolves =
            Evolves-update_where IsSound (holds_lease job) change s.rows c.sound (λ q test sound.
              record {
                kept = (keeps q).0;
                path = (flies q (holds_lease-IsSound job q drawn (ground arith) sound)).1;
              });
      }

  pub finish-Keeps :
      (settings : Settings) (json_bytes : Value → ℕ) (job : Run) (state : RunState)
      (result : Option Value) (error : String) (s s' : Store)
      → IsConsistent limit s
      → is_empty job.lease_token ≡ false
      → finish settings json_bytes job state result error s ≡ ok s'
      → Keeps limit s s'
  unfolding finish
  finish-Keeps settings json_bytes job state result error s s' c drawn e =
      elim (Option-cases (find_run (has_id job.id) s.rows)) [
        | inl missing ↦ absurd (ground arith)
        | inr (row, at) ↦ elim (Result-cases (kept_result settings json_bytes result)) [
          | inr (x, raised) ↦ absurd (ground arith)
          | inl (kept, dumped) ↦
              let (identified, among) = find_run-Among (has_id job.id) s.rows row at in
              let sound = All-Among IsSound s.rows row c.sound among in
              elim (Bool-cases
                (not (text_eq row.lease_token job.lease_token) || is_final row.state)) [
                  | inl stale ↦
                      let same : s ≡ s' = ground arith in
                      subst (Keeps limit s) same (Keeps-refl limit s c)
                  | inr fresh ↦
                      let before = holds_lease-IsSound job row drawn (ground arith) sound in
                      let (full, past) = in_flight-occupies row.state before in
                      let ended : is_final state ≡ true = ground arith in
                      let f = λ (r : Run). record r {
                        state = state;
                        result = kept;
                        error = error;
                        slot_reserved = false;
                        lease_until = 0;
                        lease_token = [];
                      } in
                      let same : record s {
                        active_count =
                            if row.slot_reserved then minus_one s.active_count else s.active_count;
                        rows = update_runs (has_id job.id) f s.rows;
                      }
                          ≡ s' =
                        ground arith in
                      subst (Keeps limit s) same (
                        give_slot limit s job.id f row c among identified (λ q. refl)
                          (record {
                            slot = sym (final-not-occupies state ended);
                            lease = λ x. refl;
                            approval = λ x. sound.approval past;
                          })
                          refl
                          (record {
                            kept = refl;
                            path = one_move (ends row.state state before ended);
                          }))
                ]
        ]
      ]
