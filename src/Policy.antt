-- ===== src/Policy.antt =====
-- src/gpu_control/policy.py: a request against the GPU policy, and the effective policy for it.
pub mod Effective
use gpu_control.Base.{
  ℕ, String, ◌<>◌, Bool, true, false, ◌&&◌, Option, none, some, Text, codes, ℤ, pos, int_eq, int_le,
  int_pos, Result, ok, err, Error, policy_error, type_error, value_error, guard, ◌>>=◌, ◌>>◌,
  if◌then◌else◌,
}
use gpu_control.Decimal.{Decimal, is_positive, decimal_le, decimal_min}
use gpu_control.Value.{Value, Fields, null, items, int, text, object, end, entry, get}
use gpu_control.Host.{Host, int_of, decimal_of}
use gpu_control.Validation.{WorkloadRequest}

-- `isinstance(v, dict)` of the value under a key, which may be missing
unfoldable pub mapping : Option Value → Error → Result Fields
mapping (some (object fs)) e = ok fs
mapping _ e = err e

-- `min(a, b)` of two integers
abbrev pub int_min : ℤ → ℤ → ℤ
int_min a b = if int_le a b then a else b

-- What `int(v)` raises for a value that is no number.
unfoldable pub int_error : Value → Error
int_error null = type_error "int() argument must be a string, a bytes-like object or a real number"
int_error (items vs) =
    type_error "int() argument must be a string, a bytes-like object or a real number"
int_error (object fs) =
    type_error "int() argument must be a string, a bytes-like object or a real number"
int_error v = value_error "invalid literal for int()"

-- `d.get(key, 0)`
abbrev pub or_zero : Option Value → Value
or_zero none = int (pos 0)
or_zero (some v) = v

abbrev pub or_null : Option Value → Value
or_null none = null
or_null (some v) = v

module _ ⦃h : Host⦄ where
  -- `int(v)`
  unfoldable pub limit_int : Value → Result ℤ
  unfolding int_error
  limit_int v = elim (int_of v) [ none ↦ err (int_error v) | some n ↦ ok n ]

  -- `_as_decimal`
  unfoldable pub as_decimal : Value → String → Result Decimal
  as_decimal v field = elim (decimal_of v) [
    | none ↦ err (policy_error ("invalid decimal in policy: " <> field))
    | some d ↦
        if is_positive d
        then ok d
        else err (policy_error (("policy field " <> field) <> " must be finite and positive"))
  ]

  -- The effective policy that is returned.
  unfoldable pub effective_policy : WorkloadRequest → ℤ → ℤ → Decimal → Fields
  effective_policy r min_vram_gb allowed_runtime allowed_cost =
      entry (codes "profile") (text r.gpu_profile) (
        entry (codes "min_vram_gb") (int min_vram_gb) (
          entry (codes "gpu_count") (int (pos 1)) (
            entry (codes "max_runtime_minutes") (int allowed_runtime)
              (entry (codes "max_cost_usd") (text (h.decimal_str allowed_cost)) end))))

  -- `validate_against_policy`
  unfoldable pub validate_against_policy : WorkloadRequest → Fields → Result Fields
  validate_against_policy r policy = do
    hard_limits ←
        mapping (get (codes "hard_limits") policy)
          (policy_error "policy must define hard_limits and profiles mappings")
    profiles ←
        mapping (get (codes "profiles") policy)
          (policy_error "policy must define hard_limits and profiles mappings")
    profile ← mapping (get r.gpu_profile profiles) (policy_error "unknown gpu_profile")
    hard_gpu_count ← limit_int (or_zero (get (codes "max_gpu_count") hard_limits))
    profile_gpu_count ← limit_int (or_zero (get (codes "max_gpu_count") profile))
    guard (int_eq hard_gpu_count (pos 1) && int_eq profile_gpu_count (pos 1))
        (policy_error "MVP policy requires exactly one allowed GPU")
    hard_runtime ← limit_int (or_zero (get (codes "max_runtime_minutes") hard_limits))
    profile_runtime ← limit_int (or_zero (get (codes "max_runtime_minutes") profile))
    guard (int_le r.max_runtime_minutes (int_min hard_runtime profile_runtime))
        (policy_error "requested runtime exceeds policy limit")
    hard_cost ←
        as_decimal (or_null (get (codes "max_cost_usd") hard_limits)) "hard_limits.max_cost_usd"
    profile_cost ← as_decimal (or_null (get (codes "max_cost_usd") profile)) "profile max_cost_usd"
    guard (decimal_le r.max_cost_usd (decimal_min hard_cost profile_cost))
        (policy_error "requested cost exceeds policy limit")
    min_vram_gb ← limit_int (or_zero (get (codes "min_vram_gb") profile))
    guard (int_pos min_vram_gb) (policy_error "profile min_vram_gb must be positive")
    ok (
        effective_policy r min_vram_gb (int_min hard_runtime profile_runtime)
          (decimal_min hard_cost profile_cost))
