-- ===== src/Gateway/Deployment.antt =====
-- gateway/gpu_gateway/config.py, registry.py and service.py: what the operator configures, who asks, and
-- what of a row a client sees.
use gpu_control.Base.{
  ℕ, Bool, true, false, ◌&&◌, not, Option, none, some, List, [], ◌∷◌, Text, text_eq, codes, String,
  pos, is_empty, Result, ok, err, gateway_error, value_error, guard, if◌then◌else◌,
}
use gpu_control.Decimal.{Decimal, special}
use gpu_control.Value.{
  Value, Values, Fields, int, float, decimal, text, items, object, nil, cons, end, entry, member,
}
use gpu_control.Host.{Host}
use gpu_control.Gateway.Runs.{RunState, Workload, ExperimentPlan, Run}

-- config.py, `Settings`, what the service and the worker read of it.
pub record Settings : Type 0 where
  pub enable_modal : Bool
  pub enable_runpod_bridge : Bool
  pub runpod_factory : Text
  pub max_inflight : ℕ
  pub approval_ttl_seconds : ℕ
  pub max_output_bytes : ℕ
  pub max_job_cost_usd : Decimal
  pub max_open_requests : ℕ

pub record Principal : Type 0 where
  pub owner : Text
  pub scopes : List Text
  pub browser : Bool

-- A request that pydantic has validated: `Prepare`.
pub record Prepare : Type 0 where
  pub workload : Text
  pub parameters : Value
  pub runtime_seconds : ℕ
  pub max_cost_usd : Text
  pub idempotency_key : Text

-- The deployment: its settings, the registered workloads, the schema validator of `jsonschema`,
-- pydantic's dump of a manifest and the length of what `json.dumps(v, allow_nan=False)` returns.
pub record Deployment : Type 0 where
  pub settings : Settings
  pub workloads : List (Text × Workload)
  pub is_schema_instance : Value → Value → Bool
  pub manifest_dump : Workload → Value
  pub json_bytes : Value → ℕ

-- What a client sees of a row: `public_run`.
pub record PublicRun : Type 0 where
  pub id : Text
  pub state : RunState
  pub created_at : ℕ
  pub fingerprint : Text
  pub plan : ExperimentPlan
  pub result : Option Value
  pub error : String
  pub cancel_requested : Bool
  pub approved_until : ℕ

unfoldable pub public_run : Run → PublicRun
public_run r = record {
  id = r.id;
  state = r.state;
  created_at = r.created_at;
  fingerprint = r.fingerprint;
  plan = r.plan;
  result = r.result;
  error = r.error;
  cancel_requested = r.cancel_requested;
  approved_until = r.approved_until;
}

-- `Principal.require`
unfoldable pub require_scope : Principal → Text → Result (Unit {0})
require_scope p scope =
    guard (member scope p.scopes) (gateway_error "insufficient_scope" "Required scope" 403)

-- registry.py, `default_registry`: whether a provider is registered, and whether it is enabled.
unfoldable pub registered : Text → Settings → Option Bool
unfolding text_eq
registered name s =
    if text_eq name (codes "demo")
    then some true
    else if text_eq name (codes "modal")
    then some s.enable_modal
    else if text_eq name (codes "runpod")
    then some (s.enable_runpod_bridge && not (is_empty s.runpod_factory))
    else none

unfoldable pub find_workload : Text → List (Text × Workload) → Option Workload
find_workload name [] = none
find_workload name ((key, w) ∷ rest) = if text_eq name key then some w else find_workload name rest

-- Whether `json.dumps(v, allow_nan=False)` returns.
unfoldable mutual
  pub is_json : Value → Bool
  is_json (float special) = false
  is_json (decimal d) = false
  is_json (items vs) = are_json vs
  is_json (object fs) = is_json_object fs
  is_json _ = true

  pub are_json : Values → Bool
  are_json nil = true
  are_json (cons v vs) = is_json v && are_json vs

  pub is_json_object : Fields → Bool
  is_json_object end = true
  is_json_object (entry k v fs) = is_json v && is_json_object fs

-- `request.model_dump()`
unfoldable pub request_dict : Prepare → Value
request_dict q = object (
    entry (codes "workload") (text q.workload) (
      entry (codes "parameters") q.parameters (
        entry (codes "runtime_seconds") (int (pos q.runtime_seconds)) (
          entry (codes "max_cost_usd") (text q.max_cost_usd)
            (entry (codes "idempotency_key") (text q.idempotency_key) end)))))

module _ ⦃h : Host⦄ where
  -- `digest`
  unfoldable pub digest : Value → Result Text
  digest v =
      if is_json v
      then ok (h.sha256_hex (h.json_dumps v))
      else err (value_error "Out of range float values are not JSON compliant")

module _ (g : Deployment) where
  -- The plan as the dictionary that is stored.
  unfoldable pub plan_dict : ExperimentPlan → Value
  plan_dict p = object (
      entry (codes "schema_version") (int (pos 1)) (
        entry (codes "workload") (text p.workload) (
          entry (codes "workload_manifest") (g.manifest_dump p.workload_manifest) (
            entry (codes "parameters") p.parameters (
              entry (codes "runtime_seconds") (int (pos p.runtime_seconds)) (
                entry (codes "max_cost_usd") (text p.max_cost_usd) (
                  entry (codes "estimated_compute_usd") (text p.estimated_compute_usd)
                    (entry (codes "provider") (text p.provider) end))))))))
