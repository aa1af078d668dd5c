-- ===== src/Migration.antt =====
-- The migration of a running container between two edge servers (migrate_source.py,
-- migrate_dest.py, migrate_controller.py, diff_patch.py).
pub mod Names
pub mod Files
pub mod DiffPatch
pub mod Commands
pub mod State
pub mod Source
pub mod Dest
pub mod Measuring
pub mod Relocation
pub mod Datagrams
