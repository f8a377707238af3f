-- ===== src/Tests.antt =====
-- Runs of the models at concrete data, and the theorems at inputs that meet their hypotheses.
mod Formats
mod SqlStep
mod Pager
mod Report
mod Checkpoint
mod Strategy
mod Policy
mod Truncate
mod Backups
mod Schedule
mod Reconcile
mod Runs
mod Engine
mod Legacy
mod Pointer
