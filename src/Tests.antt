-- ===== src/Tests.antt =====
-- Runs of the model at concrete inputs, and each theorem at an input that meets its hypotheses.
mod Leases
mod Workers
mod Rpc
mod Events
mod Adapter
mod Service
mod Access
mod Identity
mod Admin
mod Front
mod Admission
mod Settings
