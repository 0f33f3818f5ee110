-- ===== src/Decimal.antt =====
-- Python's `decimal.Decimal` in the default context (28 digits, ROUND_HALF_EVEN), as far as the
-- program uses it: comparisons, products, quotients by 60 and rounding to cents.
use gpu_control.Base.{
  ℕ, zero, suc, ◌+◌, ◌-◌, ◌*◌, ◌/◌, ◌%◌, ◌^◌, Bool, true, false, Option, none, some, ◌&&◌, ◌||◌, ℤ,
  pos, negsuc, pos_part, neg_part, sub_ℕ, int_le, int_eq, int_pos, ltb, ◌==◌, if◌then◌else◌,
}

-- `finite c e` is c * 10 ** e. A NaN or an infinity is `special`.
pub data Decimal : Type 0 where
  finite : ℤ → ℤ → Decimal
  special : Decimal

abbrev pub is_finite : Decimal → Bool
is_finite (finite c e) = true
is_finite special = false

-- `d.is_finite() and d > 0`
abbrev pub is_positive : Decimal → Bool
is_positive (finite c e) = int_pos c
is_positive special = false

-- c * 10 ** k for an integer coefficient.
abbrev pub times_power : ℤ → ℕ → ℤ
times_power (pos c) k = pos (c * 10 ^ k)
times_power (negsuc c) k = negsuc ((c + 1) * 10 ^ k - 1)

-- The two coefficients over a common exponent, compared. Only finite decimals are compared.
unfoldable pub decimal_le : Decimal → Decimal → Bool
decimal_le (finite c e) (finite d f) =
    int_le (times_power c (pos_part e + neg_part f)) (times_power d (pos_part f + neg_part e))
decimal_le special d = false
decimal_le d special = false

unfoldable pub decimal_eq : Decimal → Decimal → Bool
decimal_eq (finite c e) (finite d f) =
    int_eq (times_power c (pos_part e + neg_part f)) (times_power d (pos_part f + neg_part e))
decimal_eq special d = false
decimal_eq d special = false

-- `min(a, b)`: the first unless the second is smaller.
unfoldable pub decimal_min : Decimal → Decimal → Decimal
unfolding decimal_le
decimal_min a b = if decimal_le a b then a else b

abbrev pub precision : ℕ
precision = 28

-- The quotient num / den to the nearest integer, ties to even; den is not 0.
unfoldable pub half_even : ℕ → ℕ → ℕ
half_even num den =
    let q = num / den in
    let twice = 2 * (num % den) in
    if ltb twice den || (twice == den && (q % 2) == 0) then q else q + 1

-- The least k with den * 10 ** 27 <= num * 10 ** k, within the fuel.
digits_short : ℕ → ℕ → ℕ → ℕ
digits_short zero num den = 0
digits_short (suc fuel) num den = elim (ltb num (den * 10 ^ 27)) [
  | true ↦ suc (digits_short fuel (num * 10) den)
  | false ↦ 0
]

-- The least k with num < den * 10 ** 28 * 10 ** k, within the fuel.
digits_long : ℕ → ℕ → ℕ → ℕ
digits_long zero num den = 0
digits_long (suc fuel) num den = elim (ltb num (den * 10 ^ precision)) [
  | true ↦ 0
  | false ↦ suc (digits_long fuel num (den * 10))
]

-- num / den * 10 ** e, rounded to the precision of the context. Of two equal numbers with
-- different exponents the program sees no difference here: it goes on to round to cents.
unfoldable pub round_context : ℕ → ℕ → ℤ → Decimal
unfolding half_even digits_short digits_long
round_context num den e =
    let k = digits_short (den + precision) num den in
    let m = digits_long num num den in
    finite (pos (half_even (num * 10 ^ k) (den * 10 ^ m))) (sub_ℕ (pos_part e + m) (neg_part e + k))

-- `a * Decimal(n) / Decimal(60)` for a positive `a` and a positive `n`.
unfoldable pub hours_cost : Decimal → ℤ → Decimal
unfolding round_context
hours_cost (finite c e) n = elim (round_context (pos_part c * pos_part n) 1 e) [
  | finite p f ↦ round_context (pos_part p) 60 f
  | special ↦ special
]
hours_cost special n = special

-- The quotient num / den rounded up.
unfoldable pub ceiling : ℕ → ℕ → ℕ
ceiling num den = (num + (den - 1)) / den

-- `d.quantize(Decimal("0.01"), rounding=ROUND_CEILING)` for a positive `d`: `none` is the
-- InvalidOperation of a result that needs more digits than the context has.
unfoldable pub quantize_ceiling : Decimal → Option Decimal
unfolding ceiling
quantize_ceiling (finite c e) =
    let cents = ceiling (pos_part c * 10 ^ pos_part e * 100) (10 ^ neg_part e) in
    if ltb cents (10 ^ precision) then some (finite (pos cents) (negsuc 1)) else none
quantize_ceiling special = none

-- `cost.as_tuple().exponent < -2`
unfoldable pub finer_than_cents : Decimal → Bool
finer_than_cents (finite c e) = ltb 2 (neg_part e)
finer_than_cents special = false

-- `d.quantize(Decimal("0.01"))` for a positive `d` with at most two decimal places.
unfoldable pub quantize_cents : Decimal → Option Decimal
quantize_cents (finite c e) =
    let cents = pos_part c * 10 ^ pos_part e * 10 ^ (2 - neg_part e) in
    if ltb cents (10 ^ precision) then some (finite (pos cents) (negsuc 1)) else none
quantize_cents special = none
