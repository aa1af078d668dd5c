-- ===== src/Edge.antt =====
-- The edge server: the record of a service (migrate_node.py), its two registries (edge_services.py,
-- edge_servers.py), its look-ups (utilities.py) and its handlers (edge_controller.py).
pub mod MigrateNode
pub mod EdgeServices
pub mod Services
pub mod ControllerServer
pub mod EdgeServers
