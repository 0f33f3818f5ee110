-- ===== src/Gateway/Rows.antt =====
-- Lemmas on the statements of store.py: an update of one row by its id, of all rows that pass a test,
-- and an insertion.
use gpu_control.Base.{
  ℕ, ◌+◌, ◌≤◌, ◌≡◌, refl, sym, Bool, true, false, ◌⊎◌, inl, inr, some, List, [], ◌∷◌, Text, text_eq,
  text_eq→eq, text_eq_refl, All, Bool-cases, Result-cases, ok, arith,
}
use mathlib.Core.Path.{subst}
use gpu_control.Gateway.Runs.{Run, has_id, is_owned, find_run, update_runs, insert_run}

-- No two rows have the same id.
abbrev pub Distinct : List Run → Type 0
Distinct [] = Unit {0}
Distinct (r ∷ rs) = All (λ q. text_eq q.id r.id ≡ false) rs × Distinct rs

abbrev pub Among : Run → List Run → Type 0
Among r [] = ⊥
Among r (q ∷ rs) = (r ≡ q) ⊎ Among r rs

unfoldable pub total : (Run → ℕ) → List Run → ℕ
total μ [] = 0
total μ (r ∷ rs) = μ r + total μ rs

pub find_run-Among :
    (test : Run → Bool) (rows : List Run) (r : Run)
    → find_run test rows ≡ some r
    → (test r ≡ true) × Among r rows
unfolding find_run
find_run-Among test [] r e = cc
find_run-Among test (q ∷ rs) r e = elim (Bool-cases (test q)) [
  | inl yes' ↦ let same : q ≡ r = ground arith in (rw (← same) yes', inl (sym same))
  | inr no' ↦ let (passes, among) = find_run-Among test rs r (ground arith) in (passes, inr among)
]

pub is_owned-has_id :
    (i owner : Text) (r : Run) → is_owned i owner r ≡ true → (has_id i r ≡ true) × (r.owner ≡ owner)
is_owned-has_id i owner r e = (ground arith, text_eq→eq r.owner owner (ground arith))

pub All-Among {κ} : (P : Run → Type κ) (rows : List Run) (r : Run) → All P rows → Among r rows → P r
All-Among P [] r all among = absurd among
All-Among P (q ∷ rs) r all (inl same) = subst P (sym same) all.0
All-Among P (q ∷ rs) r all (inr among) = All-Among P rs r all.1 among

pub Among-update_runs :
    (test : Run → Bool) (f : Run → Run) (rows : List Run) (r : Run)
    → Among r rows
    → test r ≡ true
    → Among (f r) (update_runs test f rows)
unfolding update_runs
Among-update_runs test f [] r among e = absurd among
Among-update_runs test f (q ∷ rs) r (inl same) e =
    let e' : test q ≡ true = subst (λ x. test x ≡ true) same e in inl (rw (e', same) refl)
Among-update_runs test f (q ∷ rs) r (inr among) e = inr (Among-update_runs test f rs r among e)

pub update_runs-other :
    (i : Text) (f : Run → Run) (rows : List Run)
    → All (λ q. text_eq q.id i ≡ false) rows
    → update_runs (has_id i) f rows ≡ rows
unfolding update_runs
update_runs-other i f [] others = refl
update_runs-other i f (q ∷ rs) others = ground (arith, update_runs-other i f rs)

-- The row with the id stands at the head, or the head has another id.
pub at_head :
    (i : Text) (q r : Run) (rs : List Run)
    → Distinct (q ∷ rs)
    → Among r (q ∷ rs)
    → has_id i r ≡ true
    → ((r ≡ q) × (has_id i q ≡ true) × All (λ p. text_eq p.id i ≡ false) rs)
      ⊎ ((has_id i q ≡ false) × Among r rs)
at_head i q r rs distinct (inl same) e =
    let e' : has_id i q ≡ true = rw (← same) e in
    let here = text_eq→eq q.id i e' in
    inl (same, e', subst (λ t. All (λ p. text_eq p.id t ≡ false) rs) here distinct.0)
at_head i q r rs distinct (inr among) e = elim (Bool-cases (has_id i q)) [
  | inr other ↦ inr (other, among)
  | inl e' ↦
      let here = text_eq→eq q.id i e' in
      let apart = All-Among (λ p. text_eq p.id q.id ≡ false) rs r distinct.0 among in
      let clash : text_eq r.id i ≡ false = subst (λ t. text_eq r.id t ≡ false) here apart in
      absurd (ground arith)
]

-- An update by id changes the measure of the one row that has it.
pub total-update_runs :
    (μ : Run → ℕ) (i : Text) (f : Run → Run) (rows : List Run) (r : Run)
    → Distinct rows
    → Among r rows
    → has_id i r ≡ true
    → total μ (update_runs (has_id i) f rows) + μ r ≡ total μ rows + μ (f r)
unfolding total update_runs
total-update_runs μ i f [] r distinct among e = absurd among
total-update_runs μ i f (q ∷ rs) r distinct among e = elim (at_head i q r rs distinct among e) [
  | inl (same, e', others) ↦ rw (same, e', update_runs-other i f rs others) (omega arith)
  | inr (other, among') ↦ rw other (omega (arith, total-update_runs μ i f rs r distinct.1 among' e))
]

pub All-update_runs {κ} :
    (P : Run → Type κ) (i : Text) (f : Run → Run) (rows : List Run) (r : Run)
    → Distinct rows
    → Among r rows
    → has_id i r ≡ true
    → All P rows
    → P (f r)
    → All P (update_runs (has_id i) f rows)
unfolding update_runs
All-update_runs P i f [] r distinct among e all new = absurd among
All-update_runs P i f (q ∷ rs) r distinct among e all new =
    elim (at_head i q r rs distinct among e) [
      | inl (same, e', others) ↦
          rw (e', update_runs-other i f rs others) (subst (λ p. P (f p)) same new, all.1)
      | inr (other, among') ↦
          rw other (all.0, All-update_runs P i f rs r distinct.1 among' e all.1 new)
    ]

All-ids :
    (i : Text) (test : Run → Bool) (f : Run → Run) (rows : List Run)
    → ((q : Run) → (f q).id ≡ q.id)
    → All (λ q. text_eq q.id i ≡ false) rows
    → All (λ q. text_eq q.id i ≡ false) (update_runs test f rows)
unfolding update_runs
All-ids i test f [] keeps all = tt
All-ids i test f (q ∷ rs) keeps all = elim (Bool-cases (test q)) [
  | inl e ↦ rw (e, keeps q) (all.0, All-ids i test f rs keeps all.1)
  | inr e ↦ rw e (all.0, All-ids i test f rs keeps all.1)
]

pub Distinct-update_runs :
    (test : Run → Bool) (f : Run → Run) (rows : List Run)
    → ((q : Run) → (f q).id ≡ q.id)
    → Distinct rows
    → Distinct (update_runs test f rows)
unfolding update_runs
Distinct-update_runs test f [] keeps distinct = tt
Distinct-update_runs test f (q ∷ rs) keeps distinct = elim (Bool-cases (test q)) [
  | inl e ↦
      rw (e, keeps q)
        (All-ids q.id test f rs keeps distinct.0, Distinct-update_runs test f rs keeps distinct.1)
  | inr e ↦
      rw e
        (All-ids q.id test f rs keeps distinct.0, Distinct-update_runs test f rs keeps distinct.1)
]

-- An update of all rows that pass a test.
pub All-update_where {κ} :
    (P : Run → Type κ) (test : Run → Bool) (f : Run → Run) (rows : List Run)
    → ((q : Run) → test q ≡ true → P q → P (f q))
    → All P rows
    → All P (update_runs test f rows)
unfolding update_runs
All-update_where P test f [] step all = tt
All-update_where P test f (q ∷ rs) step all = elim (Bool-cases (test q)) [
  | inl e ↦ rw e (step q e all.0, All-update_where P test f rs step all.1)
  | inr e ↦ rw e (all.0, All-update_where P test f rs step all.1)
]

pub total-update_where-eq :
    (μ : Run → ℕ) (test : Run → Bool) (f : Run → Run) (rows : List Run)
    → ((q : Run) → μ (f q) ≡ μ q)
    → total μ (update_runs test f rows) ≡ total μ rows
unfolding total update_runs
total-update_where-eq μ test f [] same = refl
total-update_where-eq μ test f (q ∷ rs) same =
    ground (arith, same q, total-update_where-eq μ test f rs same)

pub total-le-update_where :
    (μ : Run → ℕ) (test : Run → Bool) (f : Run → Run) (rows : List Run)
    → ((q : Run) → μ q ≤ μ (f q))
    → total μ rows ≤ total μ (update_runs test f rows)
unfolding total update_runs
total-le-update_where μ test f [] grows = omega arith
total-le-update_where μ test f (q ∷ rs) grows =
    ground (arith, grows q, total-le-update_where μ test f rs grows)

text_eq_sym : (s t : Text) → text_eq s t ≡ false → text_eq t s ≡ false
text_eq_sym s t e = elim (Bool-cases (text_eq t s)) [
  | inr e' ↦ e'
  | inl e' ↦
      let same = text_eq→eq t s e' in
      let same' : text_eq s t ≡ true = rw same (text_eq_refl s) in absurd (ground arith)
]

-- An insertion puts one row at the end, whose id is new.
module _ (new : Run) where
  pub inserted :
      (r : Run) (rs rows' : List Run)
      → insert_run new (r ∷ rs) ≡ ok rows'
      → (others : List Run) × (insert_run new rs ≡ ok others)
        × (rows' ≡ r ∷ others)
        × (text_eq r.id new.id ≡ false)
  unfolding insert_run
  inserted r rs rows' e = elim (Result-cases (insert_run new rs)) [
    | inr (x, failed) ↦ absurd (ground arith)
    | inl (others, returned) ↦ (others, returned, ground arith, ground arith)
  ]

  pub All-insert_run {κ} :
      (P : Run → Type κ) (rows rows' : List Run)
      → insert_run new rows ≡ ok rows'
      → All P rows
      → P new
      → All P rows'
  unfolding insert_run
  All-insert_run P [] rows' e all p =
      let same : new ∷ [] ≡ rows' = ground arith in subst (All P) same (p, tt)
  All-insert_run P (r ∷ rs) rows' e all p =
      let (others, returned, same, _) = inserted r rs rows' e in
      subst (All P) (sym same) (all.0, All-insert_run P rs others returned all.1 p)

  pub total-insert_run :
      (μ : Run → ℕ) (rows rows' : List Run)
      → insert_run new rows ≡ ok rows'
      → total μ rows' ≡ total μ rows + μ new
  unfolding insert_run total
  total-insert_run μ [] rows' e =
      let same : new ∷ [] ≡ rows' = ground arith in rw (← same) (omega arith)
  total-insert_run μ (r ∷ rs) rows' e =
      let (others, returned, same, _) = inserted r rs rows' e in
      rw same (omega (arith, total-insert_run μ rs others returned))

  pub Distinct-insert_run :
      (rows rows' : List Run) → insert_run new rows ≡ ok rows' → Distinct rows → Distinct rows'
  unfolding insert_run
  Distinct-insert_run [] rows' e distinct =
      let same : new ∷ [] ≡ rows' = ground arith in subst Distinct same (tt, tt)
  Distinct-insert_run (r ∷ rs) rows' e distinct =
      let (others, returned, same, apart) = inserted r rs rows' e in
      let apart' : text_eq new.id r.id ≡ false = text_eq_sym r.id new.id apart in
      subst Distinct (sym same) (
        All-insert_run (λ q. text_eq q.id r.id ≡ false) rs others returned distinct.0 apart',
        Distinct-insert_run rs others returned distinct.1,
      )
