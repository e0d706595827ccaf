-- ===== src/Examples.antt =====
-- Runs of the model at concrete inputs, and the theorems applied there.
mod Queue
mod Attempts
mod Pool
mod Audit
mod Subtasks
mod Memory
mod Policy
mod Scheduler
mod Workflow
mod Plans
mod Approvals
mod Telemetry
mod Llm
mod Fabric
mod Handshake
mod Dispatch
