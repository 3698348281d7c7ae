-- ===== src/Worker.antt =====
-- internal/worker: the sessions one process runs. `State` has the state and the writes that every
-- operation shares, `Sessions` the sessions' life under the lease, `Commands` and `Settings` what a
-- command does, `Losses` and `Handler` what an event does, `Runtime` the periodic work and the step
-- relation.
pub mod State
pub mod Sessions
pub mod Commands
pub mod Settings
pub mod Losses
pub mod Handler
pub mod Runtime
pub mod Keeps
pub mod Preserve
pub mod Relink
pub mod Handled
pub mod Periodic
pub mod Invariant
pub mod Safety
pub mod Interleaved
pub mod Drain
pub mod Handover
