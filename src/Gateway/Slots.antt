-- ===== src/Gateway/Slots.antt =====
-- The invariant of the gateway's store, and the changes of one row that preserve it.
use gpu_control.Base.{
  ℕ, ◌≤◌, ◌≡◌, ap, ◌∙◌, Bool, true, false, Text, is_empty, All, arith, if◌then◌else◌, pos, int_le,
}
use mathlib.Core.Path.{subst}
use gpu_control.Gateway.Runs.{
  RunState, awaiting_approval, queued, submitting, submit_unknown, running, cancelled, Run, Store,
  plus_one, minus_one, has_id, update_runs,
}
use gpu_control.Gateway.Rows.{
  Distinct, Among, total, total-update_runs, All-update_runs, Distinct-update_runs,
}
use gpu_control.Gateway.LifeCycle.{in_flight}
use gpu_control.Gateway.Evolution.{Evolved, Evolves, Evolves-refl, Evolves-update_runs}

-- The states of a run that occupies an admission slot.
abbrev pub occupies : RunState → Bool
occupies queued = true
occupies submitting = true
occupies submit_unknown = true
occupies running = true
occupies _ = false

-- The states that a run reaches only through an approval.
abbrev pub past_approval : RunState → Bool
past_approval awaiting_approval = false
past_approval cancelled = false
past_approval _ = true

pub record IsSound (r : Run) : Type 0 where
  pub slot : r.slot_reserved ≡ occupies r.state
  pub lease : in_flight r.state ≡ false → is_empty r.lease_token ≡ true
  pub approval : past_approval r.state ≡ true → is_empty r.approval_id ≡ false

abbrev pub slot_weight : Run → ℕ
slot_weight r = if r.slot_reserved then 1 else 0

pub record IsConsistent (limit : ℕ) (s : Store) : Type 0 where
  pub distinct : Distinct s.rows
  pub sound : All IsSound s.rows
  pub slots : s.active_count ≡ pos (total slot_weight s.rows)
  pub within : total slot_weight s.rows ≤ limit

-- What an operation may do to the store: it keeps the invariant, and the rows follow the life cycle.
pub record Keeps (limit : ℕ) (s s' : Store) : Type 0 where
  pub consistent : IsConsistent limit s'
  pub evolves : Evolves s.rows s'.rows

module _ (limit : ℕ) where
  pub Keeps-refl : (s : Store) → IsConsistent limit s → Keeps limit s s
  Keeps-refl s c = record { consistent = c; evolves = Evolves-refl s.rows }

  -- A change of one row that leaves its slot alone.
  pub change_row :
      (s : Store) (i : Text) (f : Run → Run) (r : Run)
      → IsConsistent limit s
      → Among r s.rows
      → has_id i r ≡ true
      → ((q : Run) → (f q).id ≡ q.id)
      → IsSound (f r)
      → slot_weight (f r) ≡ slot_weight r
      → Evolved r (f r)
      → Keeps limit s (record s { rows = update_runs (has_id i) f s.rows })
  change_row s i f r c among e keeps sound same grows =
      let count = total-update_runs slot_weight i f s.rows r c.distinct among e in
      record {
        consistent = record {
          distinct = Distinct-update_runs (has_id i) f s.rows keeps c.distinct;
          sound = All-update_runs IsSound i f s.rows r c.distinct among e c.sound sound;
          slots = c.slots ∙ ap pos (omega (arith, count, same));
          within = omega (arith, count, same, c.within);
        };
        evolves = Evolves-update_runs i f s.rows r c.distinct among e grows;
      }

  -- A change of one row that takes a slot for it.
  pub take_slot :
      (s : Store) (i : Text) (f : Run → Run) (r : Run)
      → IsConsistent limit s
      → Among r s.rows
      → has_id i r ≡ true
      → ((q : Run) → (f q).id ≡ q.id)
      → IsSound (f r)
      → slot_weight r ≡ 0
      → slot_weight (f r) ≡ 1
      → int_le (pos limit) s.active_count ≡ false
      → Evolved r (f r)
      → Keeps limit s (record s {
        active_count = plus_one s.active_count;
        rows = update_runs (has_id i) f s.rows;
      })
  take_slot s i f r c among e keeps sound none_before one_after free grows =
      let count = total-update_runs slot_weight i f s.rows r c.distinct among e in
      let free' : int_le (pos limit) (pos (total slot_weight s.rows)) ≡ false =
        subst (λ z. int_le (pos limit) z ≡ false) c.slots free in
      record {
        consistent = record {
          distinct = Distinct-update_runs (has_id i) f s.rows keeps c.distinct;
          sound = All-update_runs IsSound i f s.rows r c.distinct among e c.sound sound;
          slots = rw c.slots (ground (arith, count, none_before, one_after));
          within = ground (arith, count, none_before, one_after, c.within, free');
        };
        evolves = Evolves-update_runs i f s.rows r c.distinct among e grows;
      }

  -- A change of one row that gives its slot back, if it has one.
  pub give_slot :
      (s : Store) (i : Text) (f : Run → Run) (r : Run)
      → IsConsistent limit s
      → Among r s.rows
      → has_id i r ≡ true
      → ((q : Run) → (f q).id ≡ q.id)
      → IsSound (f r)
      → slot_weight (f r) ≡ 0
      → Evolved r (f r)
      → Keeps limit s (record s {
        active_count = if r.slot_reserved then minus_one s.active_count else s.active_count;
        rows = update_runs (has_id i) f s.rows;
      })
  give_slot s i f r c among e keeps sound none_after grows =
      let count = total-update_runs slot_weight i f s.rows r c.distinct among e in
      record {
        consistent = record {
          distinct = Distinct-update_runs (has_id i) f s.rows keeps c.distinct;
          sound = All-update_runs IsSound i f s.rows r c.distinct among e c.sound sound;
          slots = rw c.slots (ground (arith, count, none_after));
          within = ground (arith, count, none_after, c.within);
        };
        evolves = Evolves-update_runs i f s.rows r c.distinct among e grows;
      }
