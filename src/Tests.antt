-- ===== src/Tests.antt =====
-- The theorems applied to concrete inputs.
mod Decimal
mod Specs
mod Scalers
mod Activities
mod Workflows
mod Deployed
mod Client
