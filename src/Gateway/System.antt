-- ===== src/Gateway/System.antt =====
-- The service and any number of workers on one store. An event is one request of a client, one claim
-- of a worker, one step of a tick or a crash of a worker, in any order; the store is the only thing
-- that they share.
use gpu_control.Base.{
  ℕ, zero, suc, Bool, true, not, Option, none, some, List, [], ◌∷◌, Text, is_empty, ok, err,
}
use gpu_control.Host.{Host}
use gpu_control.Gateway.Runs.{Store, initialized}
use gpu_control.Gateway.Deployment.{Deployment}
use gpu_control.Gateway.Requests.{Request, is_drawn, serve}
use gpu_control.Gateway.Leases.{claim}
use gpu_control.Gateway.Worker.{Answers, Phase, starting, begin, advance}

-- The ticks that are under way, and the runs for which `start` of a backend was called.
pub record World : Type 0 where
  pub store : Store
  pub ticks : List Phase
  pub starts : List Text

abbrev pub first_world : World
first_world = record { store = initialized; ticks = []; starts = [] }

pub data Event : Type 0 where
  served : Request → Event
  claims : (now later : ℕ) (token : Text) → Event
  advances : ℕ → Answers → Event
  crashes : ℕ → Event

-- The ids that an event draws are not empty.
abbrev pub is_drawn_event : Event → Bool
is_drawn_event (served q) = is_drawn q
is_drawn_event (claims now later token) = not (is_empty token)
is_drawn_event _ = true

-- One tick of those under way, and the others.
unfoldable pub pick : ℕ → List Phase → Option (Phase × List Phase)
pick n [] = none
pick zero (p ∷ ps) = some (p, ps)
pick (suc n) (p ∷ ps) = elim (pick n ps) [ none ↦ none | some (q, qs) ↦ some (q, p ∷ qs) ]

abbrev pub put : Option Phase → List Phase → List Phase
put none ps = ps
put (some p) ps = p ∷ ps

-- The call of `start` is made whatever it answers.
unfoldable pub called : Phase → List Text → List Text
called (starting k) starts = k.job.id ∷ starts
called _ starts = starts

module _ ⦃h : Host⦄ (g : Deployment) where
  unfoldable pub claim_step : ℕ → ℕ → Text → World → World
  claim_step now later token w =
      let (claimed, s) = claim now token w.store in
      elim claimed [
        | none ↦ record w { store = s }
        | some j ↦ elim (begin g j later) [
          | err e ↦ record w { store = s }
          | ok p ↦ record w { store = s; ticks = p ∷ w.ticks }
        ]
      ]

  unfoldable pub tick_step : ℕ → Answers → World → World
  tick_step n a w = elim (pick n w.ticks) [
    | none ↦ w
    | some (p, ps) ↦ record {
      store = (advance g p a w.store).1;
      ticks = put (advance g p a w.store).0 ps;
      starts = called p w.starts;
    }
  ]

  unfoldable pub step : World → Event → World
  step w (served q) = record w { store = (serve g q w.store).1 }
  step w (claims now later token) = claim_step now later token w
  step w (advances n a) = tick_step n a w
  step w (crashes n) = elim (pick n w.ticks) [ none ↦ w | some (p, ps) ↦ record w { ticks = ps } ]

  unfoldable pub run : World → List Event → World
  run w [] = w
  run w (e ∷ es) = run (step w e) es
