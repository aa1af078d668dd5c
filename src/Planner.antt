-- ===== src/Planner.antt =====
-- The planners (planner.py, optimization_planner.py) and their look-ups (stats_edge.py).
pub mod Lifetime
pub mod Stats
pub mod Signals
pub mod Plans
pub mod Optimizing
pub mod DataRate
pub mod Differences
