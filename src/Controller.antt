-- ===== src/Controller.antt =====
-- The centralized controller (centralized_controller.py).
pub mod Word
pub mod State
pub mod Triggers
pub mod Reports
pub mod Plans
pub mod Rounds
pub mod Discovery
pub mod Servers
pub mod Monitors
pub mod Records
pub mod System
pub mod Cycles
