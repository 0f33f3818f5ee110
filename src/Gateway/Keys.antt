-- ===== src/Gateway/Keys.antt =====
-- What `prepare` keeps under an idempotency key, and what it answers to the key.
use gpu_control.Base.{
  ℕ, ◌≡◌, refl, sym, ap, ◌∙◌, Bool, true, inl, inr, Option, none, some, List, [], ◌∷◌, Text,
  text_eq, text_eq_refl, text_eq→eq, Bool-cases, Option-cases, Result-cases, Result, ok, err, Error,
  gateway_error, arith, if◌then◌else◌,
}
use mathlib.Core.Path.{subst}
use gpu_control.Host.{Host}
use gpu_control.Gateway.Runs.{
  Run, Store, ExperimentPlan, is_owned, find_run, clashes, insert_run, transaction,
}
use gpu_control.Gateway.Rows.{inserted}
use gpu_control.Gateway.Deployment.{
  Principal, Prepare, Deployment, PublicRun, public_run, digest, plan_dict, request_dict,
}
use gpu_control.Gateway.Transactions.{then_owned-store}
use gpu_control.Gateway.Admission.{
  then_owned, new_run, has_key, plan_experiment, prepare_body, prepare,
}

-- A row that an insertion has put at the end is the first that passes a test which no other passes.
find_run-insert_run :
    (test : Run → Bool) (new : Run) (rows rows' : List Run)
    → insert_run new rows ≡ ok rows'
    → test new ≡ true
    → ((r : Run) → test r ≡ true → clashes new r ≡ true)
    → find_run test rows' ≡ some new
unfolding find_run insert_run
find_run-insert_run test new [] rows' e passes clash =
    let same : new ∷ [] ≡ rows' = ground arith in
    subst (λ t. find_run test t ≡ some new) same (rw passes refl)
find_run-insert_run test new (r ∷ rs) rows' e passes clash =
    let (others, returned, same, _) = inserted new r rs rows' e in
    elim (Bool-cases (test r)) [
      | inl yes' ↦ let broken = clash r yes' in absurd (ground arith)
      | inr no' ↦
          subst (λ t. find_run test t ≡ some new) (sym same)
            (rw no' (find_run-insert_run test new rs others returned passes clash))
    ]

abbrev pub conflict : Error
conflict = gateway_error "idempotency_conflict" "Use a new idempotency key for different inputs" 409

raised_not-ok {κ} :
    {P : Type κ} (p : Principal) (i : Text) (x : Error) (s : Store) (r : PublicRun)
    → (then_owned p i (err x, s)).0 ≡ ok r
    → P
unfolding then_owned
raised_not-ok p i x s r e = cc

-- What the store says of a key after `prepare` has returned.
pub record Kept (p : Principal) (q : Prepare) (hash : Text) (r : PublicRun) (s : Store)
    : Type 0 where
  pub row : Run
  pub at : find_run (has_key p.owner q.idempotency_key) s.rows ≡ some row
  pub hashed : row.request_hash ≡ hash
  pub shown : public_run row ≡ r

module _ ⦃h : Host⦄ (g : Deployment) (p : Principal) (q : Prepare) where
  new-Kept :
      (now : ℕ) (new_id hash fingerprint : Text) (plan : ExperimentPlan) (s : Store)
      (rows : List Run) (r : PublicRun)
      → insert_run (new_run p q now new_id plan hash fingerprint) s.rows ≡ ok rows
      → (then_owned p new_id (ok none, record s { rows = rows })).0 ≡ ok r
      → Kept p q hash r (record s { rows = rows })
  unfolding then_owned new_run
  new-Kept now new_id hash fingerprint plan s rows r inserts e =
      let new = new_run p q now new_id plan hash fingerprint in
      let here =
        find_run-insert_run (is_owned new_id p.owner) new s.rows rows inserts
          (ground (arith, text_eq_refl new_id, text_eq_refl p.owner)) (λ o passes. ground arith) in
      record {
        row = new;
        at =
            find_run-insert_run (has_key p.owner q.idempotency_key) new s.rows rows inserts
              (ground (arith, text_eq_refl p.owner, text_eq_refl q.idempotency_key))
              (λ o passes. ground arith);
        hashed = refl;
        shown = let same : ok (public_run new) ≡ ok r = sym (rw (here, then_owned) refl) ∙ e in cc;
      }

  body-Kept :
      (now : ℕ) (new_id hash : Text) (plan : ExperimentPlan) (s s' : Store) (o : Option PublicRun)
      (r : PublicRun)
      → prepare_body g p q now new_id plan hash s ≡ ok (o, s')
      → (then_owned p new_id (ok o, s')).0 ≡ ok r
      → Kept p q hash r s'
  unfolding prepare_body then_owned
  body-Kept now new_id hash plan s s' o r e shown =
      elim (Option-cases (find_run (has_key p.owner q.idempotency_key) s.rows)) [
        | inr (old, at) ↦
            let hashed : text_eq old.request_hash hash ≡ true = ground arith in
            let same : s ≡ s' = ground arith in
            let same' : some (public_run old) ≡ o = ground arith in
            let shown' : (then_owned p new_id (ok (some (public_run old)), s')).0 ≡ ok r =
              subst (λ x. (then_owned p new_id (ok x, s')).0 ≡ ok r) (sym same') shown in
            subst (Kept p q hash r) same (record {
              row = old;
              at = at;
              hashed = text_eq→eq old.request_hash hash hashed;
              shown = cc;
            })
        | inl fresh ↦ elim (Result-cases (digest (plan_dict g plan))) [
          | inr (x, raised) ↦ absurd (ground arith)
          | inl (fingerprint, dumped) ↦
              elim (Result-cases
                (insert_run (new_run p q now new_id plan hash fingerprint) s.rows)) [
                  | inr (x, raised) ↦ absurd (ground arith)
                  | inl (rows, inserts) ↦
                      let same : record s { rows = rows } ≡ s' = ground arith in
                      let same' : none ≡ o = ground arith in
                      let shown' : (then_owned p new_id (ok none, record s { rows = rows })).0
                          ≡ ok r =
                        subst (λ x. (then_owned p new_id (ok none, x)).0 ≡ ok r) (sym same)
                          (subst (λ x. (then_owned p new_id (ok x, s')).0 ≡ ok r) (sym same')
                            shown) in
                      subst (Kept p q hash r) same
                        (new-Kept now new_id hash fingerprint plan s rows r inserts shown')
                ]
        ]
      ]

  Kept-prepare_body :
      (now : ℕ) (new_id hash hash' : Text) (plan : ExperimentPlan) (s : Store) (r : PublicRun)
      → Kept p q hash r s
      → prepare_body g p q now new_id plan hash' s
        ≡ (if text_eq hash hash' then ok (some r, s) else err conflict)
  unfolding prepare_body
  Kept-prepare_body now new_id hash hash' plan s r kept =
      let body : prepare_body g p q now new_id plan hash' s ≡ (
          if text_eq kept.row.request_hash hash'
          then ok (some (public_run kept.row), s)
          else err conflict) =
        rw (kept.at, prepare_body) refl in
      body
      ∙ ap (λ t. if text_eq t hash' then ok (some (public_run kept.row), s) else err conflict)
          kept.hashed
      ∙ ap (λ t. if text_eq hash hash' then ok (some t, s) else err conflict) kept.shown

  -- What a key keeps, the transaction of `prepare` answers, and it leaves the store alone.
  pub answered :
      (now : ℕ) (new_id hash hash' : Text) (plan : ExperimentPlan) (s : Store) (r : PublicRun)
      → Kept p q hash r s
      → then_owned p new_id (transaction (prepare_body g p q now new_id plan hash') s)
        ≡ (if text_eq hash hash' then ok r else err conflict, s)
  unfolding then_owned transaction
  answered now new_id hash hash' plan s r kept =
      let body = Kept-prepare_body now new_id hash hash' plan s r kept in
      elim (Bool-cases (text_eq hash hash')) [
        | inl same ↦
            let body' : prepare_body g p q now new_id plan hash' s ≡ ok (some r, s) =
              body ∙ ap (λ (b : Bool). if b then ok (some r, s) else err conflict) same in
            rw (body', transaction, then_owned, same) refl
        | inr other ↦
            let body' : prepare_body g p q now new_id plan hash' s ≡ err conflict =
              body ∙ ap (λ (b : Bool). if b then ok (some r, s) else err conflict) other in
            rw (body', transaction, then_owned, other) refl
      ]

  pub prepared :
      (now : ℕ) (new_id hash : Text) (plan : ExperimentPlan) (s : Store)
      → plan_experiment g p q now ≡ ok plan
      → digest (request_dict q) ≡ ok hash
      → prepare g p q now new_id s
        ≡ then_owned p new_id (transaction (prepare_body g p q now new_id plan hash) s)
  unfolding prepare
  prepared now new_id hash plan s planned dumped = rw (planned, prepare, dumped) refl

  transaction-Kept :
      (now : ℕ) (new_id hash : Text) (plan : ExperimentPlan) (s : Store) (r : PublicRun)
      → (then_owned p new_id (transaction (prepare_body g p q now new_id plan hash) s)).0 ≡ ok r
      → Kept p q hash r
          (then_owned p new_id (transaction (prepare_body g p q now new_id plan hash) s)).1
  unfolding transaction
  transaction-Kept now new_id hash plan s r e =
      let body = prepare_body g p q now new_id plan hash in
      elim (Result-cases (body s)) [
        | inr (x, raised) ↦
            let ended : transaction body s ≡ (err x, s) = rw (raised, transaction) refl in
            raised_not-ok p new_id x s r (subst (λ t. (then_owned p new_id t).0 ≡ ok r) ended e)
        | inl ((o, s'), returned) ↦
            let ended : transaction body s ≡ (ok o, s') = rw (returned, transaction) refl in
            let e' = subst (λ t. (then_owned p new_id t).0 ≡ ok r) ended e in
            let stored : (then_owned p new_id (transaction body s)).1 ≡ s' =
              then_owned-store g p new_id (transaction body s)
              ∙ ap (λ (t : Result (Option PublicRun) × Store). t.1) ended in
            subst (Kept p q hash r) (sym stored)
              (body-Kept now new_id hash plan s s' o r returned e')
      ]

  pub prepare-Kept :
      (now : ℕ) (new_id : Text) (s : Store) (r : PublicRun)
      → (prepare g p q now new_id s).0 ≡ ok r
      → (hash : Text) × (digest (request_dict q) ≡ ok hash)
        × Kept p q hash r (prepare g p q now new_id s).1
  unfolding prepare
  prepare-Kept now new_id s r e = elim (Result-cases (plan_experiment g p q now)) [
    | inr (x, raised) ↦ absurd (ground arith)
    | inl (plan, planned) ↦ elim (Result-cases (digest (request_dict q))) [
      | inr (x, raised) ↦ absurd (ground arith)
      | inl (hash, dumped) ↦
          let same = prepared now new_id hash plan s planned dumped in
          (
            hash,
            dumped,
            subst (λ t. Kept p q hash r t.1) (sym same)
                (transaction-Kept now new_id hash plan s r (subst (λ t. t.0 ≡ ok r) same e)),
          )
    ]
  ]
