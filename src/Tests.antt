-- ===== src/Tests.antt =====
-- Runs of the modelled code on concrete requests, and the theorems at inputs that meet their hypotheses.
mod Fixtures
mod Headers
mod Tokens
mod Middleware
mod Memory
mod Storage
mod Signatures
mod Audits
mod Audited
mod Histories
mod Calls
mod Configured
mod Setups
mod Signed
mod Filters
mod Assembled
