-- ===== src/Gateway/Fairness.antt =====
-- A run whose lease has run out is claimed before every run that comes after it in the order of the claim.
use gpu_control.Base.{
  ℕ, ◌≡◌, ◌⊎◌, ◌<◌, ◌≤◌, refl, true, false, inl, inr, some, List, [], ◌∷◌, Text, Bool-cases,
  Option-cases, arith,
}
use mathlib.Core.Path.{subst}
use gpu_control.Gateway.Runs.{Run, Store}
use gpu_control.Gateway.Rows.{Among}
use gpu_control.Gateway.Claims.{earliest-Among}
use gpu_control.Gateway.Leases.{is_queued, is_claimable, is_sooner, earliest, claimed, claim}

is_sooner_self : (r : Run) → is_sooner r r ≡ false
is_sooner_self r = ground arith

is_sooner_asym : (p q : Run) → is_sooner p q ≡ true → is_sooner q p ≡ false
is_sooner_asym p q e = ground arith

is_sooner_trans :
    (p q r : Run) → is_sooner p q ≡ false → is_sooner q r ≡ false → is_sooner p r ≡ false
is_sooner_trans p q r e e' = ground arith

record Soonest (now : ℕ) (rows : List Run) (q : Run) : Type 0 where
  pub first : Run
  pub is_first : earliest now rows ≡ some first
  pub no_later : is_sooner q first ≡ false

earliest-Soonest :
    (now : ℕ) (rows : List Run) (q : Run)
    → Among q rows
    → is_claimable now q ≡ true
    → Soonest now rows q
unfolding earliest
earliest-Soonest now [] q among e = absurd among
earliest-Soonest now (p ∷ rs) q (inl same) e =
    let e' : is_claimable now p ≡ true = subst (λ x. is_claimable now x ≡ true) same e in
    elim (Option-cases (earliest now rs)) [
      | inl alone ↦ record {
        first = p;
        is_first = rw (e', alone) refl;
        no_later = rw same (is_sooner_self p);
      }
      | inr (x, rest) ↦ elim (Bool-cases (is_sooner x p)) [
        | inl sooner ↦ record {
          first = x;
          is_first = rw (e', rest, sooner) refl;
          no_later = rw same (is_sooner_asym x p sooner);
        }
        | inr later ↦ record {
          first = p;
          is_first = rw (e', rest, later) refl;
          no_later = rw same (is_sooner_self p);
        }
      ]
    ]
earliest-Soonest now (p ∷ rs) q (inr among) e =
    let rest = earliest-Soonest now rs q among e in
    elim (Bool-cases (is_claimable now p)) [
      | inr held ↦ record {
        first = rest.first;
        is_first = rw held rest.is_first;
        no_later = rest.no_later;
      }
      | inl free ↦ elim (Bool-cases (is_sooner rest.first p)) [
        | inl sooner ↦ record {
          first = rest.first;
          is_first = rw (free, rest.is_first, sooner) refl;
          no_later = rest.no_later;
        }
        | inr later ↦ record {
          first = p;
          is_first = rw (free, rest.is_first, later) refl;
          no_later = is_sooner_trans q rest.first p rest.no_later later;
        }
      ]
    ]

-- The order of a claim: by the end of the lease, then by the creation.
abbrev pub Precedes : Run → Run → Type 0
Precedes r q =
    (r.lease_until < q.lease_until)
    ⊎ ((r.lease_until ≡ q.lease_until) × (r.created_at ≤ q.created_at))

not_sooner-Precedes : (q r : Run) → is_sooner q r ≡ false → Precedes r q
not_sooner-Precedes q r e = ground arith

-- Whenever a row is in the queue or in flight and its lease has run out, a claim returns a job. The
-- row that it claims is one of the store that could be claimed, and it has the earlier lease, or an
-- equal lease and no later creation.
pub claim_takes_soonest :
    (now : ℕ) (token : Text) (s : Store) (q : Run)
    → Among q s.rows
    → is_claimable now q ≡ true
    → (r : Run) × Among r s.rows
      × (is_claimable now r ≡ true)
      × Precedes r q
      × ((claim now token s).0
          ≡ some (record { row = claimed now token r; was_queued = is_queued r.state }))
unfolding claim
claim_takes_soonest now token s q among e =
    let soonest = earliest-Soonest now s.rows q among e in
    let (among', free) = earliest-Among now s.rows soonest.first soonest.is_first in
    (
      soonest.first,
      among',
      free,
      not_sooner-Precedes q soonest.first soonest.no_later,
      rw (soonest.is_first, claim) refl,
    )
