-- ===== src/Examples/Gate.antt =====
-- The theorems of the request, the gate and the plan at the concrete job.
use gpu_control.Base.{◌≡◌, refl, some, pos, ok}
use gpu_control.Value.{text, int, decimal}
use gpu_control.Validation.{build_request}
use gpu_control.Validation.Canonical.{IsCanonical, build_request-IsCanonical}
use gpu_control.Plan.Valid.{IsApproved, validate_shape-IsApproved}
use gpu_control.Approval.Gates.{IsBacked, build_approved_execution_plan-IsBacked}
use gpu_control.Examples.World.{world, world-PathLaws}
use gpu_control.Examples.Data.{
  opened, at, sha, request, effective, source, container, pricing, approval, plan, plan_valid,
  plan_built,
}

request_built :
    build_request
      (text request.target_repo)
      (text sha)
      (text request.dockerfile_path)
      (text request.gpu_profile)
      (int (pos 30))
      (decimal request.max_cost_usd)
    ≡ ok request
unfolding opened
request_built = refl

build_request-IsCanonical_example : IsCanonical request
build_request-IsCanonical_example =
    build_request-IsCanonical world-PathLaws (text request.target_repo) (text sha)
      (text request.dockerfile_path) (text request.gpu_profile) (int (pos 30))
      (decimal request.max_cost_usd) request_built

validate_shape-IsApproved_example : IsApproved plan
validate_shape-IsApproved_example = validate_shape-IsApproved plan plan_valid

build_approved_execution_plan-IsBacked_example :
    IsBacked request effective source container pricing approval (at 0) (some (at 150)) plan
build_approved_execution_plan-IsBacked_example =
    build_approved_execution_plan-IsBacked request effective source container pricing approval
      (at 0) (some (at 150)) plan plan_built
