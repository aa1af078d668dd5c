-- ===== src/Edge/ControllerServer/Deploy/Removal.antt =====
-- What a removal leaves behind (edge_controller.py).
use mec_measurements.Prelude.{
  Bool, true, none, some, ◌≡◌, ◌≢◌, if◌then◌else◌, is_some, arith, eq_refl,
}
use mec_measurements.Edge.MigrateNode.{Kwargs, get_container_name, init}
use mec_measurements.Edge.EdgeServices.{get_service}
use mec_measurements.Edge.EdgeServices.Laws.{
  IsUnique, get_service-remove_service, find_index_service-get_service,
}
use mec_measurements.Edge.ControllerServer.State.{Docker, ControllerServer, report_services}
use mec_measurements.Edge.ControllerServer.Deploy.{remove_container, process_destroy, forget}

module _ {d : Docker} where
  open d use {status, status-remove, status-run, run, lists}

  module _ (service_json : Kwargs) (running : Bool) (s : ControllerServer d) where
    -- A removal that finds the service and its container.
    process_destroy-found :
        is_some (
            get_service s.edge_services
              (init service_json).end_user
              (init service_json).service_name)
          ≡ true
        → status s.containers (get_container_name (init service_json)) ≡ some running
        → process_destroy service_json s
          ≡ report_services (
              forget (init service_json) (
                if running then remove_container (get_container_name (init service_json)) s else s))
    unfolding process_destroy
    process_destroy-found found known =
        ground (arith, find_index_service-get_service s.edge_services (init service_json))

    not_running :
        status s.containers (get_container_name (init service_json)) ≡ some running
        → status
            (if running
              then remove_container (get_container_name (init service_json)) s
              else s).containers
            (get_container_name (init service_json))
          ≢ some true
    unfolding remove_container
    not_running known h = ground (
      arith,
      status-remove s.containers (get_container_name (init service_json))
          (get_container_name (init service_json)),
      eq_refl (get_container_name (init service_json)),
    )

    same_services :
        (if running
          then remove_container (get_container_name (init service_json)) s
          else s).edge_services
        ≡ s.edge_services
    unfolding remove_container
    same_services = ground arith

    -- After the removal of a service that is registered once and whose container is known to docker,
    -- a lookup does not find the service, and its container does not run.
    pub process_destroy_removes :
        IsUnique s.edge_services
        → is_some (
            get_service s.edge_services
              (init service_json).end_user
              (init service_json).service_name)
          ≡ true
        → status s.containers (get_container_name (init service_json)) ≡ some running
        → (get_service
              (process_destroy service_json s).edge_services
              (init service_json).end_user
              (init service_json).service_name
            ≡ none)
          × (status
                (process_destroy service_json s).containers
                (get_container_name (init service_json))
              ≢ some true)
    process_destroy_removes u found known =
        let service = init service_json in
        rw (process_destroy-found found known, same_services)
          (
            ground (
              arith,
              get_service-remove_service s.edge_services service service.end_user
                  service.service_name u,
              eq_refl service.end_user,
              eq_refl service.service_name,
            ),
            not_running known,
          )
