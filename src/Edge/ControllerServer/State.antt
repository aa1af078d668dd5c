-- ===== src/Edge/ControllerServer/State.antt =====
-- The state of ControllerServer (edge_controller.py), what it sends, and the containers of the host.
-- `sent` holds the calls of `publish`, `subscribe` and `unsubscribe` in their order.
use mec_measurements.Prelude.{
  ℕ, ◌+◌, String, Bool, Option, none, some, List, [], ◌∷◌, ◌++◌, ◌≡◌, ◌==◌, if◌then◌else◌,
}
use mec_measurements.Edge.MigrateNode.{MigrateNode, Kwargs}
use mec_measurements.Edge.EdgeServices.{EdgeServices}
use mec_measurements.Edge.EdgeServers.{ServerInfo, EdgeServers}

-- The docker daemon, through the calls that the source makes of its library: the status of a
-- container by name (`true` for 'running', none for NotFound), container.remove(force=True),
-- containers.run, which may raise, and whether the command `docker ps -a` succeeds.
pub record Docker : Type 1 where
  pub Containers : Type 0
  pub status : Containers → String → Option Bool
  pub remove : Containers → String → Containers
  pub run :
      Containers → Option String → String → (container_port port : Option ℕ) → Option Containers
  pub lists : Containers → Bool
  -- what docker documents of a removed container and of one that was started
  pub status-remove :
      (cs : Containers) (name j : String)
      → status (remove cs name) j ≡ (if name == j then none else status cs j)
  pub status-run :
      (cs ds : Containers) (image : Option String) (name : String) (container_port port : Option ℕ)
      (j : String)
      → run cs image name container_port port ≡ some ds
      → status ds j ≡ (if name == j then some Bool.true else status cs j)

-- An entry of the queue of the migration thread.
pub data Task : Type 0 where
  prepare migrate pre_measure measure : Kwargs → Task

-- The JSON object of a deployment; the controller's redeployments lack the last key.
pub record DeployJson : Type 0 where
  pub service_name : String
  pub end_user : String
  pub ssid : String
  pub bssid : Option String
  pub migrate_method : Option String

-- The times and sizes of a report travel unread and are left out.
pub record MigrationReport : Type 0 where
  pub source : Option String
  pub dest : Option String
  pub service : String

pub data Message : Type 0 where
  registers : ServerInfo → Message
  pre_migrated : (user : String) → Kwargs → Message
  allocated : (user : String) → Option MigrateNode → Message
  migrated : (user : String) → Kwargs → Message
  source_report : MigrationReport → Message
  dest_report : MigrationReport → Message
  subscribes : (user : String) → Message
  unsubscribes : (user : String) → Message

-- `reports` counts what is put into mon_queue_container: each entry is the one list of services, and
-- its reader finds the services of that time in it. `ready` is the global of the module.
pub record ControllerServer (d : Docker) : Type 0 where
  pub server_info : ServerInfo
  pub edge_services : EdgeServices
  pub my_neighbors : EdgeServers
  pub source_queue : List Task
  pub reports : ℕ
  pub mon_queue_network : List (List String)
  pub ready : Bool
  pub containers : d.Containers
  pub sent : List Message

module _ {d : Docker} where
  abbrev pub send : Message → ControllerServer d → ControllerServer d
  send m s = record s { sent = s.sent ++ m ∷ [] }

  -- self.source_queue.put(task)
  abbrev pub queue_task : Task → ControllerServer d → ControllerServer d
  queue_task t s = record s { source_queue = s.source_queue ++ t ∷ [] }

  -- self.mon_queue_container.put(self.edge_services.services)
  abbrev pub report_services : ControllerServer d → ControllerServer d
  report_services s = record s { reports = s.reports + 1 }
