-- ===== src/Edge/ControllerServer.antt =====
-- The controller of an edge server (edge_controller.py, ControllerServer): its state and handlers.
pub mod State
pub mod Deploy
pub mod Moves
pub mod Reports
