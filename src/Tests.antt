-- ===== src/Tests.antt =====
-- Tests of the model: a concrete environment, runs, and the theorems at concrete inputs.
pub mod Env
pub mod Runs
pub mod Table
pub mod Witnesses
pub mod Packets
pub mod Relays
pub mod Messages
pub mod Handlers
mod Hellos
