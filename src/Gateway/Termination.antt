-- ===== src/Gateway/Termination.antt =====
-- A tick ends: the rank of a phase counts the calls and transactions that are left.
use gpu_control.Base.{
  ℕ, zero, suc, ◌≤◌, ◌≡◌, refl, ◌||◌, inl, inr, Option, none, some, Bool-cases, Option-cases,
  Result-cases, arith,
}
use mathlib.Core.Path.{subst}
use gpu_control.Host.{Host}
use gpu_control.Gateway.Runs.{Store, has_id, find_run}
use gpu_control.Gateway.Deployment.{Deployment}
use gpu_control.Gateway.Leases.{finish}
use gpu_control.Gateway.Worker.{
  Answers, Phase, starting, reconciling, storing, adopting, watching, stopping, inspecting,
  settling, closing, finishing, is_durable, is_supported, is_running, is_overdue, advance, complete,
}

abbrev rank : Phase → ℕ
rank (settling k e) = 1
rank (closing k state error) = 1
rank (finishing k state result) = 2
rank (inspecting k handle cancelling) = 3
rank (stopping k handle) = 4
rank (watching k handle) = 5
rank (adopting k handle) = 6
rank (reconciling k) = 7
rank (storing k handle) = 2
rank (starting k) = 3

rank_positive : (p : Phase) → 1 ≤ rank p
rank_positive (settling k e) = omega arith
rank_positive (closing k state error) = omega arith
rank_positive (finishing k state result) = omega arith
rank_positive (inspecting k handle cancelling) = omega arith
rank_positive (stopping k handle) = omega arith
rank_positive (watching k handle) = omega arith
rank_positive (adopting k handle) = omega arith
rank_positive (reconciling k) = omega arith
rank_positive (storing k handle) = omega arith
rank_positive (starting k) = omega arith

rank_bound : (p : Phase) → rank p ≤ 7
rank_bound (settling k e) = omega arith
rank_bound (closing k state error) = omega arith
rank_bound (finishing k state result) = omega arith
rank_bound (inspecting k handle cancelling) = omega arith
rank_bound (stopping k handle) = omega arith
rank_bound (watching k handle) = omega arith
rank_bound (adopting k handle) = omega arith
rank_bound (reconciling k) = omega arith
rank_bound (storing k handle) = omega arith
rank_bound (starting k) = omega arith

-- Every step lowers the rank.
Lowers : Phase → Option Phase → Type 0
Lowers p none = Unit
Lowers p (some q) = suc (rank q) ≤ rank p

module _ ⦃h : Host⦄ (g : Deployment) where
  advance-Lowers : (p : Phase) (a : Answers) (s : Store) → Lowers p (advance g p a s).0
  unfolding advance Lowers
  advance-Lowers (starting k) a s = elim (Result-cases a.start) [
    | inr (x, raised) ↦ rw (raised, advance) (omega arith)
    | inl (v, returned) ↦ elim (Bool-cases (is_durable v)) [
      | inl good ↦ rw (returned, good, advance) (omega arith)
      | inr bad ↦ rw (returned, bad, advance) (omega arith)
    ]
  ]
  advance-Lowers (storing k handle) a s = omega arith
  advance-Lowers (reconciling k) a s = elim (Result-cases a.reconcile) [
    | inr (x, raised) ↦ rw (raised, advance) (omega arith)
    | inl (none, returned) ↦ rw (returned, advance) (omega arith)
    | inl (some v, returned) ↦ rw (returned, advance) (omega arith)
  ]
  advance-Lowers (adopting k handle) a s = omega arith
  advance-Lowers (watching k handle) a s = elim (Option-cases (find_run (has_id k.job.id) s.rows)) [
    | inl missing ↦ rw (missing, advance) (omega arith)
    | inr (latest, at) ↦ elim (Bool-cases (latest.cancel_requested || is_overdue g k)) [
      | inl yes' ↦ rw (at, yes', advance) (omega arith)
      | inr no' ↦ rw (at, no', advance) (omega arith)
    ]
  ]
  advance-Lowers (stopping k handle) a s = elim (Result-cases a.cancel) [
    | inr (x, raised) ↦ rw (raised, advance) (omega arith)
    | inl (x, returned) ↦ rw (returned, advance) (omega arith)
  ]
  advance-Lowers (inspecting k handle cancelling) a s = elim (Result-cases a.inspect) [
    | inr (x, raised) ↦ rw (raised, advance) (omega arith)
    | inl (o, returned) ↦ elim (Bool-cases (is_supported o.state)) [
      | inr unsupported ↦ rw (returned, unsupported, advance) (omega arith)
      | inl supported ↦ elim (Bool-cases (is_running o.state)) [
        | inl runs ↦ rw (returned, supported, runs, advance) (omega arith)
        | inr ended ↦ rw (returned, supported, ended, advance) (omega arith)
      ]
    ]
  ]
  advance-Lowers (settling k e) a s = tt
  advance-Lowers (closing k state error) a s =
      elim (Result-cases (finish g.settings g.json_bytes k.job state none error s)) [
        | inr (x, raised) ↦ rw (raised, advance) tt
        | inl (s', returned) ↦ rw (returned, advance) tt
      ]
  advance-Lowers (finishing k state result) a s =
      elim (Result-cases (finish g.settings g.json_bytes k.job state result "" s)) [
        | inr (x, raised) ↦ rw (raised, advance) (omega arith)
        | inl (s', returned) ↦ rw (returned, advance) tt
      ]

  ends_within :
      (fuel : ℕ) (p : Phase) (a : Answers) (s : Store)
      → rank p ≤ fuel
      → (complete g fuel p a s).0 ≡ none
  unfolding complete Lowers
  ends_within zero p a s enough = absurd (ground (arith, rank_positive p))
  ends_within (suc fuel) p a s enough =
      let lower = advance-Lowers p a s in
      elim (Option-cases (advance g p a s).0) [
        | inl done ↦ rw (done, complete) refl
        | inr (q, next) ↦
            let lower' : Lowers p (some q) = subst (Lowers p) next lower in
            rw (next, complete)
              (ends_within fuel q a (advance g p a s).1 (omega (arith, lower', enough)))
      ]

  -- Whatever phase a tick of the worker is in and whatever the backend answers, at most 7 further
  -- calls and transactions end it: the fuel of the model's tick is never used up.
  tick_ends : (p : Phase) (a : Answers) (s : Store) → (complete g 7 p a s).0 ≡ none
  tick_ends p a s = ends_within 7 p a s (rank_bound p)
