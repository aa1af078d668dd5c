-- ===== src/Database.antt =====
-- The central database (central_database.py).
pub mod Estimate
pub mod Rows
pub mod Queries
pub mod Updates
pub mod Servers
pub mod History
pub mod Migrations
pub mod Containers
pub mod Handover
