-- ===== src/Tests.antt =====
-- Concrete inputs: a simulated platform, and the theorems applied to it.
pub mod Sim
mod Fixtures
mod Pool
mod Log
mod Client
mod Ramcloud
mod Watcher
mod Experimental
mod Threads
mod Pointers
mod Sharing
mod Refinement
mod Service
mod Timing
