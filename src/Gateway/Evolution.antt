-- ===== src/Gateway/Evolution.antt =====
-- How the rows of the store follow the life cycle. Nothing but the columns that the life cycle owns
-- changes in a row, and a row is never dropped.
use gpu_control.Base.{
  ◌≡◌, refl, sym, ap, ◌∙◌, Bool, true, inl, inr, some, List, [], ◌∷◌, Text, text_eq, ℕ, ◌≤◌, All,
  Bool-cases, ok, arith, if◌then◌else◌,
}
use mathlib.Core.Path.{subst}
use gpu_control.Gateway.Runs.{
  awaiting_approval, ExperimentPlan, Run, has_id, update_runs, insert_run, find_run,
}
use gpu_control.Gateway.Rows.{Distinct, Among, total, at_head, update_runs-other, inserted}
use gpu_control.Gateway.Service.{is_waiting}
use gpu_control.Gateway.LifeCycle.{Leads, stays, Leads_trans, Leads-waiting}

-- What of a row never changes.
pub record Identity : Type 0 where
  pub id : Text
  pub owner : Text
  pub idempotency_key : Text
  pub request_hash : Text
  pub fingerprint : Text
  pub plan : ExperimentPlan
  pub created_at : ℕ

abbrev pub identity : Run → Identity
identity r = record {
  id = r.id;
  owner = r.owner;
  idempotency_key = r.idempotency_key;
  request_hash = r.request_hash;
  fingerprint = r.fingerprint;
  plan = r.plan;
  created_at = r.created_at;
}

pub record Evolved (r q : Run) : Type 0 where
  pub kept : identity r ≡ identity q
  pub path : Leads r.state q.state

pub Evolved-refl : (r : Run) → Evolved r r
Evolved-refl r = record { kept = refl; path = stays }

pub Evolved-trans : {p q r : Run} → Evolved p q → Evolved q r → Evolved p r
Evolved-trans a b = record { kept = a.kept ∙ b.kept; path = Leads_trans a.path b.path }

-- Row by row; a row that is new began with an approval to wait for.
abbrev pub Evolves : List Run → List Run → Type 0
Evolves [] qs = All (λ q. Leads awaiting_approval q.state) qs
Evolves (r ∷ rs) [] = ⊥
Evolves (r ∷ rs) (q ∷ qs) = Evolved r q × Evolves rs qs

pub Evolves-refl : (rows : List Run) → Evolves rows rows
Evolves-refl [] = tt
Evolves-refl (r ∷ rs) = (Evolved-refl r, Evolves-refl rs)

New_trans : (qs rs : List Run) → Evolves [] qs → Evolves qs rs → Evolves [] rs
New_trans [] rs new e = e
New_trans (q ∷ qs) [] new e = absurd e
New_trans (q ∷ qs) (r ∷ rs) new e = (Leads_trans new.0 e.0.path, New_trans qs rs new.1 e.1)

pub Evolves-trans : (ps qs rs : List Run) → Evolves ps qs → Evolves qs rs → Evolves ps rs
Evolves-trans [] qs rs a b = New_trans qs rs a b
Evolves-trans (p ∷ ps) [] rs a b = absurd a
Evolves-trans (p ∷ ps) (q ∷ qs) [] a b = absurd b
Evolves-trans (p ∷ ps) (q ∷ qs) (r ∷ rs) a b =
    (Evolved-trans a.0 b.0, Evolves-trans ps qs rs a.1 b.1)

-- An update of one row by its id.
pub Evolves-update_runs :
    (i : Text) (f : Run → Run) (rows : List Run) (r : Run)
    → Distinct rows
    → Among r rows
    → has_id i r ≡ true
    → Evolved r (f r)
    → Evolves rows (update_runs (has_id i) f rows)
unfolding update_runs
Evolves-update_runs i f [] r distinct among e new = absurd among
Evolves-update_runs i f (q ∷ rs) r distinct among e new = elim (at_head i q r rs distinct among e) [
  | inl (same, e', others) ↦
      rw (e', update_runs-other i f rs others)
        (subst (λ p. Evolved p (f p)) same new, Evolves-refl rs)
  | inr (other, among') ↦
      rw other (Evolved-refl q, Evolves-update_runs i f rs r distinct.1 among' e new)
]

-- An update of all rows that pass a test.
pub Evolves-update_where {κ} :
    (P : Run → Type κ) (test : Run → Bool) (f : Run → Run) (rows : List Run)
    → All P rows
    → ((q : Run) → test q ≡ true → P q → Evolved q (f q))
    → Evolves rows (update_runs test f rows)
unfolding update_runs
Evolves-update_where P test f [] all step = tt
Evolves-update_where P test f (q ∷ rs) all step = elim (Bool-cases (test q)) [
  | inl e ↦ rw e (step q e all.0, Evolves-update_where P test f rs all.1 step)
  | inr e ↦ rw e (Evolved-refl q, Evolves-update_where P test f rs all.1 step)
]

-- An insertion of a row that waits for approval.
pub Evolves-insert_run :
    (new : Run) (rows rows' : List Run)
    → insert_run new rows ≡ ok rows'
    → new.state ≡ awaiting_approval
    → Evolves rows rows'
unfolding insert_run
Evolves-insert_run new [] rows' e waits =
    let same : new ∷ [] ≡ rows' = ground arith in
    subst (Evolves []) same (subst (Leads awaiting_approval) (sym waits) stays, tt)
Evolves-insert_run new (r ∷ rs) rows' e waits =
    let (others, returned, same, _) = inserted new r rs rows' e in
    subst (Evolves (r ∷ rs)) (sym same)
      (Evolved-refl r, Evolves-insert_run new rs others returned waits)

-- Weighs a run with this id that has left the queue.
abbrev pub left_weight : Text → Run → ℕ
left_weight i r = if text_eq r.id i then (if is_waiting r.state then 0 else 1) else 0

left_weight-Evolved : (i : Text) (r q : Run) → Evolved r q → left_weight i r ≤ left_weight i q
left_weight-Evolved i r q e =
    let same = ap (λ (x : Identity). x.id) e.kept in
    elim (Bool-cases (is_waiting r.state)) [
      | inl waits ↦ rw waits (ground arith)
      | inr gone ↦ let gone' = Leads-waiting e.path gone in rw (same, gone, gone') (omega arith)
    ]

-- No run comes back to the queue.
pub left_weight-Evolves :
    (i : Text) (rows rows' : List Run)
    → Evolves rows rows'
    → total (left_weight i) rows ≤ total (left_weight i) rows'
unfolding total
left_weight-Evolves i [] rows' e = omega arith
left_weight-Evolves i (r ∷ rs) [] e = absurd e
left_weight-Evolves i (r ∷ rs) (q ∷ qs) e =
    omega (arith, left_weight-Evolved i r q e.0, left_weight-Evolves i rs qs e.1)

-- A row is still there after its rows have evolved.
pub follow :
    (rows rows' : List Run) (r : Run)
    → Evolves rows rows'
    → Among r rows
    → (q : Run) × Among q rows' × Evolved r q
follow [] rows' r e among = absurd among
follow (p ∷ ps) [] r e among = absurd e
follow (p ∷ ps) (q ∷ qs) r e (inl same) = (q, inl refl, subst (λ x. Evolved x q) (sym same) e.0)
follow (p ∷ ps) (q ∷ qs) r e (inr among) =
    let (found, at, evolved) = follow ps qs r e.1 among in (found, inr at, evolved)

-- So is the first row with a key, which no row before it gets.
pub find_run-Evolves :
    (test : Run → Bool) (rows rows' : List Run) (r : Run)
    → ((p q : Run) → identity p ≡ identity q → test p ≡ test q)
    → Evolves rows rows'
    → find_run test rows ≡ some r
    → (q : Run) × (find_run test rows' ≡ some q) × Evolved r q
unfolding find_run
find_run-Evolves test [] rows' r same e at = cc
find_run-Evolves test (p ∷ ps) [] r same e at = absurd e
find_run-Evolves test (p ∷ ps) (q ∷ qs) r same e at = elim (Bool-cases (test p)) [
  | inl yes' ↦
      let first : p ≡ r = ground arith in
      let yes'' = sym (same p q e.0.kept) ∙ yes' in
      (q, rw yes'' refl, subst (λ x. Evolved x q) first e.0)
  | inr no' ↦
      let (found, at', evolved) = find_run-Evolves test ps qs r same e.1 (ground arith) in
      let no'' = sym (same p q e.0.kept) ∙ no' in (found, rw no'' at', evolved)
]
