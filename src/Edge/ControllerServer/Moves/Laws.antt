-- ===== src/Edge/ControllerServer/Moves/Laws.antt =====
-- What a move of a service does on its source and on its destination (edge_controller.py).

use mec_measurements.Prelude.{String, false, none, some, ◌≡◌, refl, ◌==◌, or_else, arith, eq_refl}
use mec_measurements.Effects.{return}
use mec_measurements.Edge.MigrateNode.{MigrateNode, Kwargs, get_migrate_service, init}
use mec_measurements.Edge.EdgeServices.{get_service}
use mec_measurements.Edge.EdgeServices.Laws.{
  IsUnique, get_service-add_service, get_service-remove_service,
}
use mec_measurements.Edge.ControllerServer.State.{
  Docker, migrate, ControllerServer, queue_task, report_services,
}
use mec_measurements.Edge.ControllerServer.Moves.{
  process_migrate, source_migrate_cb, dest_migrate_cb, with_measures,
}

-- The service that moves: the command's, with what was measured and counted of the local one.
pub record IsMoved (command local moved : MigrateNode) : Type 0 where
  pub end_user : moved.end_user ≡ command.end_user
  pub service_name : moved.service_name ≡ command.service_name
  pub server_name : moved.server_name ≡ command.server_name
  pub method : moved.method ≡ command.method
  pub request : moved.request ≡ local.request
  pub time_checkpoint : moved.time_checkpoint ≡ local.time_checkpoint
  pub time_xdelta : moved.time_xdelta ≡ local.time_xdelta
  pub delta_memory : moved.delta_memory ≡ local.delta_memory
  pub pre_checkpoint : moved.pre_checkpoint ≡ local.pre_checkpoint

-- The service that process_migrate hands to the migration thread.
moving : MigrateNode → MigrateNode → MigrateNode
moving command local = record (with_measures command local) { request = local.request }

module _ {d : Docker} where
  source_migrate_cb-gone :
      (kwargs : Kwargs) (s : ControllerServer d)
      → IsUnique s.edge_services
      → get_service
          (source_migrate_cb kwargs s).edge_services
          (init kwargs).end_user
          (init kwargs).service_name
        ≡ none
  unfolding source_migrate_cb
  source_migrate_cb-gone kwargs s u = ground (
    arith,
    get_service-remove_service s.edge_services (init kwargs) (init kwargs).end_user
        (init kwargs).service_name u,
    eq_refl (init kwargs).end_user,
    eq_refl (init kwargs).service_name,
  )

  dest_migrate_cb-there :
      (kwargs : Kwargs) (s : ControllerServer d)
      → get_service
          (dest_migrate_cb kwargs s).edge_services
          (init kwargs).end_user
          (init kwargs).service_name
        ≡ or_else
            (get_service s.edge_services (init kwargs).end_user (init kwargs).service_name)
            (some (init kwargs))
  unfolding dest_migrate_cb
  dest_migrate_cb-there kwargs s = ground (
    arith,
    get_service-add_service s.edge_services (init kwargs) (init kwargs).end_user
        (init kwargs).service_name,
    eq_refl (init kwargs).end_user,
    eq_refl (init kwargs).service_name,
  )

  process_migrate-queues :
      (json : Kwargs) (server_name : String) (local : MigrateNode) (s : ControllerServer d)
      → json.server_name ≡ some server_name
      → (server_name == s.server_info.server_name) ≡ false
      → get_service s.edge_services (init json).end_user (init json).service_name ≡ some local
      → process_migrate json s ≡ (
        return tt,
        report_services (queue_task (migrate (get_migrate_service (moving (init json) local))) s),
      )
  unfolding process_migrate moving
  process_migrate-queues json server_name local s e f g = ground arith

  -- MIGRATE for a service of this server whose destination is another one: one migration is queued,
  -- of the command's service with the measurements and the request count of the local one. When its
  -- thread has ended, the source, whose registry held the service once, does not find it any more,
  -- and the destination, where it was not found before, finds what moved.
  pub migration_moves :
      (json : Kwargs) (server_name : String) (local : MigrateNode) (s t : ControllerServer d)
      → json.server_name ≡ some server_name
      → (server_name == s.server_info.server_name) ≡ false
      → get_service s.edge_services (init json).end_user (init json).service_name ≡ some local
      → IsUnique s.edge_services
      → get_service t.edge_services (init json).end_user (init json).service_name ≡ none
      → (kwargs : Kwargs) × (process_migrate json s
          ≡ (return tt, report_services (queue_task (migrate kwargs) s)))
        × IsMoved (init json) local (init kwargs)
        × (get_service
              (source_migrate_cb kwargs (process_migrate json s).1).edge_services
              (init json).end_user
              (init json).service_name
            ≡ none)
        × (get_service
              (dest_migrate_cb kwargs t).edge_services
              (init json).end_user
              (init json).service_name
            ≡ some (init kwargs))
  unfolding moving init get_migrate_service
  migration_moves json server_name local s t e f g u free =
      let kwargs = get_migrate_service (moving (init json) local) in
      let queued = process_migrate-queues json server_name local s e f g in
      (
        kwargs,
        queued,
        record {
          end_user = refl;
          service_name = refl;
          server_name = refl;
          method = refl;
          request = refl;
          time_checkpoint = refl;
          time_xdelta = refl;
          delta_memory = refl;
          pre_checkpoint = refl;
        },
        rw queued
            (source_migrate_cb-gone kwargs (report_services (queue_task (migrate kwargs) s)) u),
        rw (dest_migrate_cb-there kwargs t, free) refl,
      )
