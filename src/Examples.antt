-- ===== src/Examples.antt =====
-- Concrete rows and calls on which the theorems of the other modules are applied.
mod Data
mod TaskRuns
mod DagRuns
mod Queueing
mod Graph
mod Registry
mod Scheduling
mod Planning
mod Encoding
mod Specs
mod Claims
mod Running
mod Cleanup
mod Contexts
mod Calls
mod Jobs
mod Operations
