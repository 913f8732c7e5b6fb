-- ===== src/Examples.antt =====
-- Runs of the code on concrete inputs, and the theorems applied where their hypotheses hold.
pub mod Policy
pub mod Admission
pub mod Views
pub mod Display
pub mod Growth
pub mod Scheduling
pub mod Engine
pub mod Attribution
pub mod Protocol
