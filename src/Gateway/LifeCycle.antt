-- ===== src/Gateway/LifeCycle.antt =====
-- The life cycle of a run: the abstract machine that the rows of the store implement.
use gpu_control.Base.{◌≡◌, refl, sym, ap, ◌∙◌, Bool, true, false, arith}
use gpu_control.Gateway.Runs.{
  RunState, awaiting_approval, approved, queued, submitting, submit_unknown, running, succeeded,
  failed, cancelled, expired, is_final,
}
use gpu_control.Gateway.Service.{is_submitted, is_approved, is_waiting}

-- The states that a worker may hold a lease of.
abbrev pub in_flight : RunState → Bool
in_flight submitting = true
in_flight submit_unknown = true
in_flight running = true
in_flight _ = false

-- One move of the abstract machine.
pub data Move : RunState → RunState → Type 0 where
  approves : Move awaiting_approval approved
  queues : Move approved queued
  withdraws : (t : RunState) → is_waiting t ≡ true → Move t cancelled
  begins : Move queued submitting
  flies : (t u : RunState) → in_flight t ≡ true → in_flight u ≡ true → Move t u
  ends : (t u : RunState) → in_flight t ≡ true → is_final u ≡ true → Move t u

-- Any number of moves.
pub data Leads (t : RunState) : RunState → Type 0 where
  stays : Leads t t
  moves : {u v : RunState} → Leads t u → Move u v → Leads t v

pub Leads_trans : {t u v : RunState} → Leads t u → Leads u v → Leads t v
Leads_trans first stays = first
Leads_trans first (moves second m) = moves (Leads_trans first second) m

abbrev pub one_move : {t u : RunState} → Move t u → Leads t u
one_move m = moves stays m

in_flight-not-final : (t : RunState) → in_flight t ≡ true → is_final t ≡ false
unfolding is_final
in_flight-not-final awaiting_approval e = cc
in_flight-not-final approved e = cc
in_flight-not-final queued e = cc
in_flight-not-final submitting e = refl
in_flight-not-final submit_unknown e = refl
in_flight-not-final running e = refl
in_flight-not-final succeeded e = cc
in_flight-not-final failed e = cc
in_flight-not-final cancelled e = cc
in_flight-not-final expired e = cc

in_flight-not-waiting : (t : RunState) → in_flight t ≡ true → is_waiting t ≡ false
unfolding is_waiting
in_flight-not-waiting awaiting_approval e = cc
in_flight-not-waiting approved e = cc
in_flight-not-waiting queued e = cc
in_flight-not-waiting submitting e = refl
in_flight-not-waiting submit_unknown e = refl
in_flight-not-waiting running e = refl
in_flight-not-waiting succeeded e = cc
in_flight-not-waiting failed e = cc
in_flight-not-waiting cancelled e = cc
in_flight-not-waiting expired e = cc

final-not-waiting : (t : RunState) → is_final t ≡ true → is_waiting t ≡ false
unfolding is_final is_waiting
final-not-waiting awaiting_approval e = cc
final-not-waiting approved e = cc
final-not-waiting queued e = cc
final-not-waiting submitting e = cc
final-not-waiting submit_unknown e = cc
final-not-waiting running e = cc
final-not-waiting succeeded e = refl
final-not-waiting failed e = refl
final-not-waiting cancelled e = refl
final-not-waiting expired e = refl

waiting-not-final : (t : RunState) → is_waiting t ≡ true → is_final t ≡ false
unfolding is_final is_waiting
waiting-not-final awaiting_approval e = refl
waiting-not-final approved e = refl
waiting-not-final queued e = refl
waiting-not-final submitting e = cc
waiting-not-final submit_unknown e = cc
waiting-not-final running e = cc
waiting-not-final succeeded e = cc
waiting-not-final failed e = cc
waiting-not-final cancelled e = cc
waiting-not-final expired e = cc

-- No move leaves a final state.
Move-not-final : {t u : RunState} → Move t u → is_final t ≡ false
unfolding is_final
Move-not-final approves = refl
Move-not-final queues = refl
Move-not-final (withdraws t e) = waiting-not-final t e
Move-not-final begins = refl
Move-not-final (flies t u e e') = in_flight-not-final t e
Move-not-final (ends t u e e') = in_flight-not-final t e

pub Leads-final : {t u : RunState} → Leads t u → is_final t ≡ true → t ≡ u
Leads-final stays e = refl
Leads-final (moves first m) e =
    let same = Leads-final first e in
    let open' = Move-not-final m in
    let closed' = sym (ap is_final same) ∙ e in absurd (ground arith)

-- No move goes back to the queue.
Move-waiting : {t u : RunState} → Move t u → is_waiting t ≡ false → is_waiting u ≡ false
unfolding is_waiting
Move-waiting approves e = cc
Move-waiting queues e = cc
Move-waiting (withdraws t e') e = refl
Move-waiting begins e = refl
Move-waiting (flies t u e' flying) e = in_flight-not-waiting u flying
Move-waiting (ends t u e' ended) e = final-not-waiting u ended

pub Leads-waiting : {t u : RunState} → Leads t u → is_waiting t ≡ false → is_waiting u ≡ false
Leads-waiting stays e = e
Leads-waiting (moves first m) e = Move-waiting m (Leads-waiting first e)

-- The moves of the operations.
pub approve-Leads : (t : RunState) → is_submitted t ≡ false → Leads t approved
unfolding is_submitted
approve-Leads awaiting_approval e = one_move approves
approve-Leads approved e = stays
approve-Leads queued e = cc
approve-Leads submitting e = cc
approve-Leads submit_unknown e = cc
approve-Leads running e = cc
approve-Leads succeeded e = cc
approve-Leads failed e = cc
approve-Leads cancelled e = cc
approve-Leads expired e = cc

pub submit-Leads : (t : RunState) → is_approved t ≡ true → Leads t queued
unfolding is_approved
submit-Leads awaiting_approval e = cc
submit-Leads approved e = one_move queues
submit-Leads queued e = cc
submit-Leads submitting e = cc
submit-Leads submit_unknown e = cc
submit-Leads running e = cc
submit-Leads succeeded e = cc
submit-Leads failed e = cc
submit-Leads cancelled e = cc
submit-Leads expired e = cc
