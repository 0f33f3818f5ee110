-- ===== src/Gateway/Ready.antt =====
-- What a tick has checked when it is about to call `start` of a backend.
use gpu_control.Base.{
  ℕ, zero, suc, ◌≡◌, false, inl, inr, Option, none, some, List, [], ◌∷◌, Text, text_eq_refl,
  is_empty, All, Option-cases, arith,
}
use mathlib.Core.Path.{subst}
use gpu_control.Host.{Host}
use gpu_control.Gateway.Runs.{submitting, Run}
use gpu_control.Gateway.Rows.{Among}
use gpu_control.Gateway.Deployment.{Deployment}
use gpu_control.Gateway.Evolution.{Evolved, Evolved-trans, Evolves, follow}
use gpu_control.Gateway.Worker.{
  Task, Phase, starting, reconciling, storing, adopting, watching, stopping, inspecting, settling,
  closing, finishing,
}
use gpu_control.Gateway.Steps.{due_weight, Follows}
use gpu_control.Gateway.Starting.{IsCleared}
use gpu_control.Gateway.System.{pick, put}

-- A task that may start: it was taken out of the queue, it was approved and its plan is cleared, and
-- its run is a row of the store that has moved on from there.
pub record IsReady ⦃h : Host⦄ (g : Deployment) (rows : List Run) (k : Task) : Type 0 where
  pub fresh : k.job.state ≡ submitting
  pub approved : is_empty k.job.approval_id ≡ false
  pub cleared : IsCleared g k
  pub row : Run
  pub stored : Among row rows
  pub evolved : Evolved k.job row

pub pick-All {κ} :
    (P : Phase → Type κ) (n : ℕ) (ps : List Phase) (p : Phase) (qs : List Phase)
    → All P ps
    → pick n ps ≡ some (p, qs)
    → P p × All P qs
unfolding pick
pick-All P n [] p qs all e = cc
pick-All P zero (o ∷ ps) p qs all e =
    let same : o ≡ p = ground arith in
    let rest : ps ≡ qs = ground arith in (subst P same all.0, subst (All P) rest all.1)
pick-All P (suc n) (o ∷ ps) p qs all e = elim (Option-cases (pick n ps)) [
  | inl missing ↦ absurd (ground arith)
  | inr ((q, others), at) ↦
      let (first, rest) = pick-All P n ps q others all.1 at in
      let same : q ≡ p = ground arith in
      let same' : o ∷ others ≡ qs = ground arith in
      (subst P same first, subst (All P) same' (all.0, rest))
]

module _ ⦃h : Host⦄ (g : Deployment) where
  abbrev pub Ready : List Run → Phase → Type 0
  Ready rows (starting k) = IsReady g rows k
  Ready rows _ = Unit

  Ready-Evolves :
      (rows rows' : List Run) (p : Phase) → Evolves rows rows' → Ready rows p → Ready rows' p
  Ready-Evolves rows rows' (starting k) e ready =
      let (q, among, evolved) = follow rows rows' ready.row e ready.stored in
      record {
        fresh = ready.fresh;
        approved = ready.approved;
        cleared = ready.cleared;
        row = q;
        stored = among;
        evolved = Evolved-trans ready.evolved evolved;
      }
  Ready-Evolves rows rows' (reconciling k) e ready = tt
  Ready-Evolves rows rows' (storing k handle) e ready = tt
  Ready-Evolves rows rows' (adopting k handle) e ready = tt
  Ready-Evolves rows rows' (watching k handle) e ready = tt
  Ready-Evolves rows rows' (stopping k handle) e ready = tt
  Ready-Evolves rows rows' (inspecting k handle cancelling) e ready = tt
  Ready-Evolves rows rows' (settling k x) e ready = tt
  Ready-Evolves rows rows' (closing k state error) e ready = tt
  Ready-Evolves rows rows' (finishing k state result) e ready = tt

  pub ticks-Evolve :
      (rows rows' : List Run) (ps : List Phase)
      → Evolves rows rows'
      → All (Ready rows) ps
      → All (Ready rows') ps
  ticks-Evolve rows rows' [] e ready = tt
  ticks-Evolve rows rows' (p ∷ ps) e ready =
      (Ready-Evolves rows rows' p e ready.0, ticks-Evolve rows rows' ps e ready.1)

  -- What does not start is ready.
  idle-Ready : (rows : List Run) (p : Phase) → ((i : Text) → due_weight i p ≡ 0) → Ready rows p
  idle-Ready rows (starting k) idle = absurd (ground (arith, idle k.job.id, text_eq_refl k.job.id))
  idle-Ready rows (reconciling k) idle = tt
  idle-Ready rows (storing k handle) idle = tt
  idle-Ready rows (adopting k handle) idle = tt
  idle-Ready rows (watching k handle) idle = tt
  idle-Ready rows (stopping k handle) idle = tt
  idle-Ready rows (inspecting k handle cancelling) idle = tt
  idle-Ready rows (settling k x) idle = tt
  idle-Ready rows (closing k state error) idle = tt
  idle-Ready rows (finishing k state result) idle = tt

  pub put-Ready :
      (rows : List Run) (next : Option Phase) (ps : List Phase)
      → Follows next
      → All (Ready rows) ps
      → All (Ready rows) (put next ps)
  put-Ready rows none ps follows ready = ready
  put-Ready rows (some q) ps follows ready = (idle-Ready rows q follows.1, ready)
