-- ===== src/Tests.antt =====
-- Runs of the model on a small kernel, and the theorems at inputs that meet their hypotheses.
pub mod Toy
pub mod Sessions
pub mod Devices
pub mod Website
pub mod Pages
pub mod Calls
pub mod Trees
