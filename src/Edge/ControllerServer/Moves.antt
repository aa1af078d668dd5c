-- ===== src/Edge/ControllerServer/Moves.antt =====
-- A service that moves (edge_controller.py): the handlers of the central controller's commands, and
-- the callbacks of the migration threads. A message or a callback's keyword arguments is `Kwargs`.
pub mod Laws
pub mod Requests
use mec_measurements.Prelude.{
  ℕ, ◌+◌, String, Bool, Option, none, some, List, [], ◌∷◌, ◌++◌, ◌==◌, eqb, if◌then◌else◌, upsert,
}
use mec_measurements.Effects.{Result, return, raise, key_error, attribute_error, Action}
use mec_measurements.Edge.MigrateNode.{MigrateNode, Kwargs, get_migrate_service, init}
use mec_measurements.Edge.EdgeServices.{
  EdgeServices, keyed, add_service, remove_service, get_service,
}
use mec_measurements.Edge.ControllerServer.State.{
  Docker, Task, prepare, migrate, pre_measure, measure, pre_migrated, migrated, subscribes,
  unsubscribes, ControllerServer, send, queue_task, report_services,
}

-- What was measured of the local service goes with the one that moves.
abbrev pub with_measures : MigrateNode → MigrateNode → MigrateNode
with_measures service local_service = record service {
  time_xdelta = local_service.time_xdelta;
  time_checkpoint = local_service.time_checkpoint;
  delta_memory = local_service.delta_memory;
  pre_checkpoint = local_service.pre_checkpoint;
}

module _ {d : Docker} where
  pub process_pre_migrate : Kwargs → Action (ControllerServer d) (Unit {0})
  unfolding init get_migrate_service
  process_pre_migrate service_json s =
      let pre_mig_service = init service_json in
      elim service_json.server_name [
        | none ↦ (raise key_error, s)
        | some server_name ↦
            if server_name == s.server_info.server_name
            then (return tt, send (pre_migrated pre_mig_service.end_user service_json) s)
            else elim (get_service s.edge_services pre_mig_service.end_user
                pre_mig_service.service_name) [
                  | none ↦ (return tt, s)
                  | some local_service ↦ (
                    return tt,
                    queue_task
                        (prepare
                          (get_migrate_service (with_measures pre_mig_service local_service)))
                        s,
                  )
                ]
      ]

  pub process_migrate : Kwargs → Action (ControllerServer d) (Unit {0})
  unfolding init get_migrate_service
  process_migrate service_json s =
      let migrating_service = init service_json in
      elim service_json.server_name [
        | none ↦ (raise key_error, s)
        | some server_name ↦
            if server_name == s.server_info.server_name
            then (return tt, s)
            else elim (get_service s.edge_services migrating_service.end_user
                migrating_service.service_name) [
                  | none ↦ (return tt, s)
                  | some local_service ↦
                      let moving : MigrateNode =
                        record (with_measures migrating_service local_service) {
                          request = local_service.request;
                        } in
                      (
                        return tt,
                        report_services (queue_task (migrate (get_migrate_service moving)) s),
                      )
                ]
      ]

  -- The thread of the source has prepared the migration.
  pub source_prepare_cb : Kwargs → ControllerServer d → ControllerServer d
  unfolding init
  source_prepare_cb kwargs s = send (pre_migrated (init kwargs).end_user kwargs) s

  -- The thread of the source has sent the service away.
  pub source_migrate_cb : Kwargs → ControllerServer d → ControllerServer d
  unfolding init
  source_migrate_cb kwargs s =
      let service = init kwargs in
      let told = send (unsubscribes service.end_user) s in
      report_services (record told { edge_services = remove_service told.edge_services service })

  -- The thread of the destination has restored the service.
  pub dest_migrate_cb : Kwargs → ControllerServer d → ControllerServer d
  unfolding init
  dest_migrate_cb kwargs s =
      let service = init kwargs in
      let told = send (migrated service.end_user kwargs) s in
      report_services (
        send (subscribes service.end_user)
          (record told { edge_services = add_service told.edge_services service }))

  -- A measurement of the local service: the object in the registry is changed.
  pub source_dirty_rate_cb :
      (end_user service_name : String)
      → (delta_memory pre_checkpoint : Option ℕ) → (time_checkpoint time_xdelta : ℕ)
      → Action (ControllerServer d) (Unit {0})
  source_dirty_rate_cb end_user service_name delta_memory pre_checkpoint time_checkpoint time_xdelta
        s =
      elim (get_service s.edge_services end_user service_name) [
        | none ↦ (raise attribute_error, s)
        | some service ↦
            let measured : MigrateNode = record service {
              delta_memory = delta_memory;
              pre_checkpoint = pre_checkpoint;
              time_checkpoint = time_checkpoint;
              time_xdelta = time_xdelta;
            } in
            (
              return tt,
              report_services (record s {
                edge_services = record (s.edge_services) {
                  services = upsert (keyed service_name end_user) measured s.edge_services.services;
                };
              }),
            )
      ]

-- One more request of a service of the user, with the measurement that it starts.
abbrev pub counted : MigrateNode → MigrateNode
counted service = record service { request = service.request + 1 }

abbrev pub measurement : MigrateNode → List Task
measurement service =
    if eqb service.request 3
    then pre_measure (get_migrate_service service) ∷ []
    else if eqb service.request 4
    then measure (get_migrate_service service) ∷ []
    else []

-- The loop of process_monitor_service over the services of the registry.
pub count_requests : String → List MigrateNode → List MigrateNode
count_requests user [] = []
count_requests user (service ∷ rest) =
    (if service.end_user == user then counted service else service) ∷ count_requests user rest

pub measurements : String → List MigrateNode → List Task
measurements user [] = []
measurements user (service ∷ rest) =
    (if service.end_user == user then measurement (counted service) else [])
    ++ measurements user rest

module _ {d : Docker} where
  pub process_monitor_service : String → ControllerServer d → ControllerServer d
  unfolding count_requests measurements
  process_monitor_service end_user s = record s {
    edge_services = record (s.edge_services) {
      services = count_requests end_user s.edge_services.services;
    };
    source_queue = s.source_queue ++ measurements end_user s.edge_services.services;
  }
