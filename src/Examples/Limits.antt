-- ===== src/Examples/Limits.antt =====
-- The theorem of the effective policy at a concrete policy.
use gpu_control.Base.{ℕ, ◌≡◌, refl, codes, pos, negsuc, ok}
use gpu_control.Decimal.{finite, decimal_min}
use gpu_control.Value.{Fields, int, decimal, object, end, entry}
use gpu_control.Approval.{check_policy}
use gpu_control.Policy.{mapping, limit_int, as_decimal, effective_policy, validate_against_policy}
use gpu_control.Policy.Effective.{check_policy-validate_against_policy}
use gpu_control.Examples.World.{world, world-StrLaws}
use gpu_control.Examples.Data.{opened, request}

abbrev limits : ℕ → ℕ → Fields
limits minutes cents = entry (codes "max_gpu_count") (int (pos 1)) (
    entry (codes "max_runtime_minutes") (int (pos minutes)) (
      entry (codes "max_cost_usd") (decimal (finite (pos cents) (negsuc 1)))
        (entry (codes "min_vram_gb") (int (pos 24)) end)))

abbrev document : Fields
document =
    entry (codes "hard_limits") (object (limits 120 100)) (
      entry (codes "profiles") (object (entry (codes "cheap-24gb") (object (limits 60 50)) end))
        end)

abbrev allowed : Fields
allowed = effective_policy request (pos 24) (pos 60) (finite (pos 50) (negsuc 1))

document_accepts : validate_against_policy request document ≡ ok allowed
unfolding opened mapping limit_int as_decimal validate_against_policy decimal_min
document_accepts = refl

check_policy-validate_against_policy_example : check_policy request allowed ≡ ok (pos 1)
check_policy-validate_against_policy_example =
    check_policy-validate_against_policy world-StrLaws request document allowed document_accepts
