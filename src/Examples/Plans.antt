-- ===== src/Examples/Plans.antt =====
-- The theorems of stored plans at a concrete plan.
use gpu_control.Base.{◌≡◌, refl, some, none, ok}
use gpu_control.Value.{text, object, as_text}
use gpu_control.Plan.{to_dict, fingerprint}
use gpu_control.Plan.Stored.{
  require_plan_keys, plan_version, plan_int, plan_flag, plan_decimal, read_plan, plan_from_dict,
}
use gpu_control.Plan.Valid.{IsApproved}
use gpu_control.Plan.Restored.{plan_from_dict-to_dict, plan_from_dict-IsApproved}
use gpu_control.Examples.World.{world, world-DecimalLaws}
use gpu_control.Examples.Data.{plan, plan_valid}
use gpu_control.Examples.Run.{all_opened, expected}

plan_from_dict-to_dict_example : plan_from_dict (object (to_dict plan)) none ≡ ok plan
plan_from_dict-to_dict_example =
    plan_from_dict-to_dict world-DecimalLaws plan refl refl refl plan_valid

plan_restored : plan_from_dict (object (to_dict plan)) (some expected) ≡ ok plan
unfolding all_opened require_plan_keys plan_version plan_int plan_flag plan_decimal read_plan
    plan_from_dict as_text
plan_restored = refl

plan_from_dict-IsApproved_example : IsApproved plan × (expected ≡ text (fingerprint plan))
plan_from_dict-IsApproved_example =
    plan_from_dict-IsApproved (object (to_dict plan)) expected plan plan_restored
