-- ===== src/Tests.antt =====
-- Concrete runs of the model, and the theorems at concrete inputs.
mod Frames
mod Clients
mod Blocks
mod Sessions
mod Scripts
mod Captures
mod Specs
mod Displays
mod Runs
mod Worlds
