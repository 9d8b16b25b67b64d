-- ===== src/Composition.antt =====
-- internal/composition: the reconciler of a composition.
pub mod Env
pub mod Support
pub mod Steps
pub mod Observe
pub mod Create
pub mod Update
pub mod Delete
pub mod Paused
pub mod Keeping
pub mod Releases
pub mod Settled
pub mod History
pub mod Static
mod Memory
mod Stored
mod Tests
