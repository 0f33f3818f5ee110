-- ===== src/Gateway/Transactions.antt =====
-- The transactions of the service, and what they do to the store.
use mathlib.Core.Path.{subst}
use gpu_control.Base.{
  ℕ, ◌+◌, ◌≡◌, refl, ap, ◌∙◌, true, false, inl, inr, Option, none, some, List, Text, is_empty,
  Bool-cases, Option-cases, Result-cases, Result, ok, err, arith, if◌then◌else◌, pos, int_le,
}
use gpu_control.Host.{Host}
use gpu_control.Gateway.Runs.{ExperimentPlan}
use gpu_control.Gateway.Runs.{
  approved, queued, cancelled, Run, Store, is_final, plus_one, minus_one, has_id, is_owned,
  find_run, update_runs, insert_run, transaction,
}
use gpu_control.Gateway.Rows.{
  Among, find_run-Among, is_owned-has_id, All-Among, All-insert_run, total-insert_run,
  Distinct-insert_run,
}
use gpu_control.Gateway.Deployment.{
  Principal, Prepare, Deployment, PublicRun, digest, plan_dict, registered,
}
use gpu_control.Gateway.Admission.{then_owned, new_run, has_key, prepare_body}
use gpu_control.Gateway.Service.{
  is_submitted, is_approved, is_waiting, approve_body, submit_body, cancel_body,
}
use gpu_control.Gateway.LifeCycle.{stays, withdraws, one_move, approve-Leads, submit-Leads}
use gpu_control.Gateway.Evolution.{Evolves-insert_run}
use gpu_control.Gateway.Slots.{
  IsSound, IsConsistent, Keeps, Keeps-refl, slot_weight, change_row, take_slot, give_slot,
}

-- The row that a transaction is about.
pub record Chosen (run_id owner : Text) (rows : List Run) (r : Run) : Type 0 where
  pub among : Among r rows
  pub identified : has_id run_id r ≡ true
  pub owned : r.owner ≡ owner

find_run-Chosen :
    (run_id owner : Text) (rows : List Run) (r : Run)
    → find_run (is_owned run_id owner) rows ≡ some r
    → Chosen run_id owner rows r
find_run-Chosen run_id owner rows r e =
    let (passes, among) = find_run-Among (is_owned run_id owner) rows r e in
    let (identified, owned) = is_owned-has_id run_id owner r passes in
    record { among = among; identified = identified; owned = owned }

module _ ⦃h : Host⦄ (g : Deployment) where
  abbrev limit : ℕ
  limit = g.settings.max_inflight

  abbrev Preserves : {A : Type 0} → (Store → Result (A × Store)) → Type 0
  Preserves {A} body =
      (s : Store) (a : A) (s' : Store)
      → IsConsistent limit s
      → body s ≡ ok (a, s')
      → Keeps limit s s'

  -- A transaction that keeps the invariant when it commits keeps it.
  pub transaction-Keeps :
      {A : Type 0} (body : Store → Result (A × Store)) (s : Store)
      → Preserves body
      → IsConsistent limit s
      → Keeps limit s (transaction body s).1
  unfolding transaction
  transaction-Keeps body s preserves c = elim (Result-cases (body s)) [
    | inr (x, raised) ↦ rw (raised, transaction) (Keeps-refl limit s c)
    | inl ((a, s'), returned) ↦ rw (returned, transaction) (preserves s a s' c returned)
  ]

  pub then_owned-store :
      (p : Principal) (run_id : Text) (r : Result (Option PublicRun) × Store)
      → (then_owned p run_id r).1 ≡ r.1
  unfolding then_owned
  then_owned-store p run_id (err e, s) = refl
  then_owned-store p run_id (ok (some r), s) = refl
  then_owned-store p run_id (ok none, s) = refl

  pub approve_body-Keeps :
      (p : Principal) (run_id fingerprint : Text) (now : ℕ) (approval_id : Text)
      → is_empty approval_id ≡ false
      → Preserves (approve_body g p run_id fingerprint now approval_id)
  unfolding approve_body is_submitted is_waiting
  approve_body-Keeps p run_id fingerprint now approval_id drawn s a s' c e =
      elim (Option-cases (find_run (is_owned run_id p.owner) s.rows)) [
        | inl missing ↦ absurd (ground arith)
        | inr (row, at) ↦
            let chosen = find_run-Chosen run_id p.owner s.rows row at in
            let sound = All-Among IsSound s.rows row c.sound chosen.among in
            elim (Result-cases (digest (plan_dict g row.plan))) [
              | inr (x, raised) ↦ absurd (ground arith)
              | inl (stored, dumped) ↦
                  let early : is_submitted row.state ≡ false = ground arith in
                  let f = λ (r : Run). record r {
                    state = approved;
                    approval_id = approval_id;
                    approved_until = now + g.settings.approval_ttl_seconds;
                  } in
                  let same : record s { rows = update_runs (has_id run_id) f s.rows } ≡ s' =
                    ground arith in
                  subst (Keeps limit s) same (
                    change_row limit s run_id f row c chosen.among chosen.identified (λ q. refl)
                      (ground arith) (ground arith)
                      (record { kept = refl; path = approve-Leads row.state early }))
            ]
      ]

  pub submit_body-Keeps :
      (p : Principal) (run_id : Text) (now : ℕ) → Preserves (submit_body g p run_id now)
  unfolding submit_body is_approved is_submitted is_waiting
  submit_body-Keeps p run_id now s a s' c e =
      elim (Option-cases (find_run (is_owned run_id p.owner) s.rows)) [
        | inl missing ↦ absurd (ground arith)
        | inr (row, at) ↦
            let chosen = find_run-Chosen run_id p.owner s.rows row at in
            let sound = All-Among IsSound s.rows row c.sound chosen.among in
            elim (Bool-cases (is_submitted row.state)) [
              | inl done ↦
                  let same : s ≡ s' = ground arith in
                  subst (Keeps limit s) same (Keeps-refl limit s c)
              | inr early ↦ elim (Option-cases (registered row.plan.provider g.settings)) [
                | inl unknown ↦ absurd (ground arith)
                | inr (enabled, known) ↦
                    let ready : is_approved row.state ≡ true = ground arith in
                    let free : int_le (pos limit) s.active_count ≡ false = ground arith in
                    let f = λ (r : Run). record r { state = queued; slot_reserved = true } in
                    let same : record s {
                      active_count = plus_one s.active_count;
                      rows = update_runs (has_id run_id) f s.rows;
                    }
                        ≡ s' =
                      ground arith in
                    subst (Keeps limit s) same (
                      take_slot limit s run_id f row c chosen.among chosen.identified (λ q. refl)
                        (ground arith) (ground arith) (ground arith) free
                        (record { kept = refl; path = submit-Leads row.state ready }))
              ]
            ]
      ]

  pub cancel_body-Keeps : (p : Principal) (run_id : Text) → Preserves (cancel_body p run_id)
  unfolding cancel_body is_waiting
  cancel_body-Keeps p run_id s a s' c e =
      elim (Option-cases (find_run (is_owned run_id p.owner) s.rows)) [
        | inl missing ↦ absurd (ground arith)
        | inr (row, at) ↦
            let chosen = find_run-Chosen run_id p.owner s.rows row at in
            let sound = All-Among IsSound s.rows row c.sound chosen.among in
            elim (Bool-cases (is_final row.state)) [
              | inl done ↦
                  let same : s ≡ s' = ground arith in
                  subst (Keeps limit s) same (Keeps-refl limit s c)
              | inr open' ↦ elim (Bool-cases (is_waiting row.state)) [
                | inl waits ↦
                    let f = λ (r : Run). record r {
                      state = cancelled;
                      slot_reserved = false;
                      cancel_requested = true;
                    } in
                    let same : record s {
                      active_count =
                          if row.slot_reserved then minus_one s.active_count else s.active_count;
                      rows = update_runs (has_id run_id) f s.rows;
                    }
                        ≡ s' =
                      ground arith in
                    subst (Keeps limit s) same (
                      give_slot limit s run_id f row c chosen.among chosen.identified (λ q. refl)
                        (ground arith) refl
                        (record { kept = refl; path = one_move (withdraws row.state waits) }))
                | inr flying ↦
                    let f = λ (r : Run). record r { cancel_requested = true } in
                    let same : record s { rows = update_runs (has_id run_id) f s.rows } ≡ s' =
                      ground arith in
                    subst (Keeps limit s) same (
                      change_row limit s run_id f row c chosen.among chosen.identified (λ q. refl)
                        (ground arith) refl (record { kept = refl; path = stays }))
              ]
            ]
      ]

  pub prepare_body-Keeps :
      (p : Principal) (q : Prepare) (now : ℕ) (new_id : Text) (plan : ExperimentPlan)
      (request_hash : Text)
      → Preserves (prepare_body g p q now new_id plan request_hash)
  unfolding prepare_body new_run is_waiting
  prepare_body-Keeps p q now new_id plan request_hash s a s' c e =
      elim (Option-cases (find_run (has_key p.owner q.idempotency_key) s.rows)) [
        | inr (old, at) ↦
            let same : s ≡ s' = ground arith in subst (Keeps limit s) same (Keeps-refl limit s c)
        | inl fresh ↦ elim (Result-cases (digest (plan_dict g plan))) [
          | inr (x, raised) ↦ absurd (ground arith)
          | inl (fingerprint, dumped) ↦
              let new = new_run p q now new_id plan request_hash fingerprint in
              elim (Result-cases (insert_run new s.rows)) [
                | inr (x, raised) ↦ absurd (ground arith)
                | inl (rows, inserted) ↦
                    let same : record s { rows = rows } ≡ s' = ground arith in
                    let count = total-insert_run new slot_weight s.rows rows inserted in
                    subst (Keeps limit s) same (record {
                      consistent = record {
                        distinct = Distinct-insert_run new s.rows rows inserted c.distinct;
                        sound =
                            All-insert_run new IsSound s.rows rows inserted c.sound (ground arith);
                        slots = c.slots ∙ ap pos (ground (arith, count));
                        within = ground (arith, count, c.within);
                      };
                      evolves = Evolves-insert_run new s.rows rows inserted refl;
                    })
              ]
        ]
      ]
