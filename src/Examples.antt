-- ===== src/Examples.antt =====
-- A concrete host, a concrete job, and the theorems of the library at them.
mod World
mod Data
mod Gate
mod Run
mod Jobs
mod Captures
mod Plans
mod Limits
mod Service
mod Histories
mod Completions
mod Permits
