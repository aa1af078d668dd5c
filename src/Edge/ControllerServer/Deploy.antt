-- ===== src/Edge/ControllerServer/Deploy.antt =====
-- The deployment and the removal of a service on an edge server (edge_controller.py):
-- start_edge_service, process_deploy and process_destroy.
pub mod Laws
pub mod Removal
use mec_measurements.Prelude.{
  ℕ, String, Bool, true, false, Option, none, some, List, ◌==◌, if◌then◌else◌,
}
use mec_measurements.Effects.{Result, return, raise, key_error, Action}
use mec_measurements.Edge.MigrateNode.{MigrateNode, Kwargs, get_container_name, init}
use mec_measurements.Edge.EdgeServices.{
  EdgeServices, add_service, remove_service, get_service, find_index_service,
}
use mec_measurements.Edge.EdgeServers.{ServerInfo}
use mec_measurements.Edge.Services.{get_container_for_service, find_open_port}
use mec_measurements.Edge.ControllerServer.State.{
  Docker, DeployJson, allocated, subscribes, unsubscribes, ControllerServer, send, report_services,
}

-- No keyword argument.
abbrev no_kwargs : Kwargs
no_kwargs = record {
  snapshot = none;
  end_user = none;
  service_name = none;
  registry = none;
  user = none;
  ip = none;
  server_name = none;
  port = none;
  ssid = none;
  bssid = none;
  container_port = none;
  container_img = none;
  dump_dir = none;
  debug = none;
  method = none;
  request = none;
  time_checkpoint = none;
  time_xdelta = none;
  delta_memory = none;
  pre_checkpoint = none;
}

-- The description of the service that is to be started.
pub new_service :
    ServerInfo → (ℕ → Bool) → DeployJson → (bssid migrate_method : String) → MigrateNode
unfolding init
new_service info binds json bssid migrate_method =
    let (container_img, container_port) = get_container_for_service json.service_name in
    init (record no_kwargs {
      service_name = some json.service_name;
      end_user = some json.end_user;
      ip = some info.ip;
      server_name = some info.server_name;
      ssid = some json.ssid;
      bssid = some bssid;
      port = some (find_open_port binds);
      container_img = some container_img;
      container_port = some container_port;
      method = some (if migrate_method == "non_live_migration" then "rsync" else "delta");
    })

module _ {d : Docker} where
  open d use {status, remove, run, lists}

  -- containers.run and what follows it, with the handler of its exceptions: the service is none if
  -- the container does not start, and also if `docker ps -a` fails after it.
  pub run_container : MigrateNode → ControllerServer d → Option MigrateNode × ControllerServer d
  unfolding get_container_name
  run_container service s =
      elim (run s.containers service.container_img (get_container_name service)
        service.container_port service.port) [
          | none ↦ (none, s)
          | some cs ↦ (
            if lists cs then some service else none,
            send (subscribes service.end_user)
                (record s { containers = cs; edge_services = add_service s.edge_services service }),
          )
        ]

  pub remove_container : String → ControllerServer d → ControllerServer d
  remove_container name s = record s { containers = remove s.containers name }

  -- The search for the container, and what is done for each of its states.
  pub find_or_run : MigrateNode → ControllerServer d → Option MigrateNode × ControllerServer d
  unfolding get_container_name run_container remove_container
  find_or_run service s =
      let name = get_container_name service in
      elim (status s.containers name) [
        | none ↦ run_container service s
        | some false ↦ run_container service (remove_container name s)
        | some true ↦ elim (get_service s.edge_services service.end_user service.service_name) [
          | none ↦ run_container service (remove_container name s)
          | some lookup_service ↦ (some lookup_service, s)
        ]
      ]

  pub start_edge_service :
      (ℕ → Bool) → DeployJson → Action (ControllerServer d) (Option MigrateNode)
  unfolding new_service find_or_run
  start_edge_service binds json s = elim json.bssid [
    | none ↦ (raise key_error, s)
    | some bssid ↦ elim json.migrate_method [
      | none ↦ (raise key_error, s)
      | some migrate_method ↦
          let (edge_service, s') =
            find_or_run (new_service s.server_info binds json bssid migrate_method) s in
          (return edge_service, report_services s')
    ]
  ]

  pub process_deploy : (ℕ → Bool) → DeployJson → Action (ControllerServer d) (Unit {0})
  unfolding start_edge_service
  process_deploy binds json s =
      let (r, s') = start_edge_service binds json s in
      elim r [
        | raise e ↦ (raise e, s')
        | return edge_service ↦ (return tt, send (allocated json.end_user edge_service) s')
      ]

  -- The removal of the service whose container was found, if that runs.
  abbrev pub forget : MigrateNode → ControllerServer d → ControllerServer d
  forget service s =
      send (unsubscribes service.end_user)
        (record s { edge_services = remove_service s.edge_services service })

  pub process_destroy : Kwargs → ControllerServer d → ControllerServer d
  unfolding init get_container_name remove_container
  process_destroy service_json s =
      let removing_service = init service_json in
      let name = get_container_name removing_service in
      elim (find_index_service s.edge_services removing_service) [
        | none ↦ s
        | some _ ↦ report_services (elim (status s.containers name) [
          | none ↦ s
          | some true ↦ forget removing_service (remove_container name s)
          | some false ↦ forget removing_service s
        ])
      ]
