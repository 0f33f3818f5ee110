-- ===== src/Lib.antt =====
-- A model of the control plane of gpu-control: the path of one paid GPU job from an untrusted
-- request to a manifest of its results, the authorization for it, and the gateway that queues and
-- runs experiments.
--
-- The parts, the files that model them and the source:
--   src/gpu_control/validation.py: Validation. `build_request` turns raw inputs into a
--     `WorkloadRequest` with canonical fields.
--   src/gpu_control/source.py, container.py, pricing.py: Evidence. The records that other steps
--     produce, and the shape checks of two of them.
--   src/gpu_control/execution.py: Plan is `ApprovedExecutionPlan` with `validate_shape`, `to_dict`,
--     `from_dict` (in Plan/Stored), `fingerprint` and `validate_expected_fingerprint`; Approval is
--     `build_approved_execution_plan`, which makes a plan of a request and its evidence.
--   src/gpu_control/policy.py: Policy. `validate_against_policy` checks a request against a policy
--     document and returns the effective policy that Approval takes.
--   src/gpu_control/lifecycle.py: Lifecycle holds the states of a job and of its cleanup and the
--     tables of allowed transitions, Receipt the submission receipt, Observation the observations
--     and the check between two of them.
--   src/gpu_control/results.py: ResultPolicy, Artifact and Manifest.
--   src/gpu_control/providers/base.py: Adapter. An adapter is a record of calls over a state of its
--     own; a call answers or raises and may change that state in both cases.
--   src/gpu_control/providers/controller.py: Controller. `submit_approved_plan`,
--     `observe_provider_job`, `cleanup_provider_job` and `collect_provider_results` are each the
--     gates before the one call of the adapter, that call, and the tests of its answer.
--   src/gpu_control/providers/finalization.py: Capture is `ProviderResultCapture`, result metadata
--     that is taken before the cleanup; Finalization takes one through an adapter and binds it to the
--     finalized lifecycle, once the cleanup is done.
--   src/gpu_control/completion.py: Completion. A challenge names an execution, and the evidence that
--     the workload signs for it is verified against the challenge and the collected result.
--   src/gpu_control/repository_security.py, paid_authorization.py, human_authorization.py:
--     Authorization/Repository, /Paid and /Human. `authorize_paid_execution` admits one identity of
--     the policy, `authorize_live_plan` binds it and the human intent to one plan as a permit.
--   gateway/gpu_gateway/store.py, service.py, worker.py: Gateway. Runs has the table of runs and the
--     control row, Deployment the settings and the registry (config.py, registry.py), Admission
--     `prepare`, Service `approve`, `submit` and `cancel`, Leases the transactions of the worker and
--     Worker its tick, cut at each call of a backend and each transaction. System puts requests,
--     the steps of any number of ticks and crashes of workers in one order of events; Slots,
--     LifeCycle and Evolution have the invariant and the abstract machine of a run, Ready and
--     Readiness the invariant of the ticks, and Keys what an idempotency key keeps.
--   src/gpu_control/providers/synthetic.py: Synthetic, an adapter of Controller.
--   Base, Decimal, Value, Host, Clock and Patterns are what these share: results and exceptions,
--     Python's decimals, dynamic values, the standard library, timestamps and regular expressions.
--   Examples holds a concrete host, tests and runs.
--
-- How the source reads here. An exception is a value of `Error`, by its class, and an operation that
-- may raise returns a `Result`; an `except` clause is a function on results that renames the
-- classes it catches and no other. Messages leave out interpolated run-time values. A field that
-- may hold an unchecked payload (what an adapter answers, what was restored from JSON) is a `Value`,
-- and the isinstance checks on it are tests; where the program itself fills a field, the field has
-- its declared type, and the isinstance check holds by typing. Numbers are unbounded as in Python.
-- A `Decimal` is a coefficient and an exponent; products and quotients are rounded half even to the
-- 28 digits of the default context. The quotients by 60 and by 3600 are the only divisions.
--
-- The standard library enters as the record `Host`: `datetime.fromisoformat` and `isoformat`,
-- `Decimal` and `int` of a text, `format`, `PurePosixPath`, `json.dumps` and `sha256`. A lemma that
-- relies on what they do names the law: `ClockLaws` (a UTC time that was formatted reads back as
-- itself), `DecimalLaws` (the same for a decimal that `format` writes digit by digit), `StrLaws`
-- (`Decimal` of `str` of a finite decimal is that decimal) and `PathLaws` (the text of
-- a path reads back as that path). `hmac` and `str.isdecimal` are arguments of the definitions that
-- use them; the schema validator, the dump of a manifest and the length of a JSON text are fields of
-- `Deployment`. Examples.World has a host and proves the laws for it. Nothing is assumed of the hash.
--
-- Loops are structural recursion on lists and texts. Fuel is in Decimal, where rounding counts the
-- digits of a number (the fuel is the number itself, and each step divides by ten), and in
-- Gateway/Worker, where a tick without interruptions has 7 steps: a recovery that adopts a handle,
-- cancels it and cannot store its result takes all of them.
--
-- Not modelled: `from_json` and the JSON decoder; the loading of bundled policies, so a policy is an
-- argument; HTTP, the command line and the RunPod adapters; of the gateway its
-- web application, the validation of requests by pydantic, the backends' SDKs and a database that
-- fails, nor the OverflowError that `int` raises for an infinity, which `int_of` does not tell from
-- a ValueError. A transaction of the gateway is one step, which the row locks of the source provide.
pub mod Base
pub mod Decimal
pub mod Value
pub mod Host
pub mod Clock
pub mod Patterns
pub mod Validation
pub mod Plan
pub mod Evidence
pub mod Approval
pub mod Policy
pub mod Lifecycle
pub mod Receipt
pub mod Observation
pub mod ResultPolicy
pub mod Artifact
pub mod Manifest
pub mod Adapter
pub mod Authorization
pub mod Completion
pub mod Controller
pub mod Capture
pub mod Finalization
pub mod Gateway
pub mod Synthetic
pub mod Examples
