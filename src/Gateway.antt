-- ===== src/Gateway.antt =====
-- gateway/gpu_gateway: the service that admits experiments and the worker that runs them.
pub mod Runs
pub mod Deployment
pub mod Admission
pub mod Service
pub mod Leases
pub mod Worker
pub mod Termination
pub mod Rows
pub mod LifeCycle
pub mod Evolution
pub mod Slots
pub mod Writes
pub mod Claims
pub mod Steps
pub mod Beginning
pub mod Transactions
pub mod Requests
pub mod System
pub mod Starting
pub mod Fairness
pub mod Keys
pub mod Idempotence
pub mod Safety
pub mod Guarantees
pub mod Ready
pub mod Readiness
