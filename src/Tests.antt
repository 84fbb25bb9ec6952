-- ===== src/Tests.antt =====
-- Runs at concrete inputs, and the theorems applied to them.
mod Samples
mod Billing
mod Compliance
mod Service
mod Shared
mod Callers
mod Drift
mod Limits
mod Gates
mod Engines
mod AzureEngine
mod Handlers
mod Adapters
