-- ===== src/Examples/Running.antt =====
-- The theorems on episodes of the controller, applied.
use mathlib.Core.Option
use mec_measurements.Prelude.{none, some, List, [], ◌∷◌, ◌++◌, ◌≡◌, refl}
use mec_measurements.Effects.{return}
use mec_measurements.Database.Queries.{
  get_service, get_json, get_user, bts_info_of, service_of, edge_server_of, user_of,
  query_cur_assign,
}
use mec_measurements.Database.Updates.{update_end_user_info, set_state}
use mec_measurements.Database.Estimate.{get_est_mig_time}
use mec_measurements.Planner.Lifetime.{
  lifetime_to_mig, db_get_est_mig_time, wait_for, get_est_handover_time,
}
use mec_measurements.Controller.Word.{running_state}
use mec_measurements.Controller.State.{
  Controller, Callback, handover, pre_migrate, migrate, destroy,
}
use mec_measurements.Controller.Triggers.{
  trigger_handover, trigger_pre_migration, trigger_migration,
}
use mec_measurements.Controller.Reports.{process_pre_migrated, process_migrated, process_handovered}
use mec_measurements.Controller.Discovery.{process_eu_notification}
use mec_measurements.Controller.Discovery.Laws.{process_eu_notification-removes}
use mec_measurements.Controller.Cycles.{
  handover_cycle, migration_cycle, fire_all, process_pre_migrated-gives_up,
}
use mec_measurements.Examples.{
  sample, a_db, a_user, a_server, a_service, a_forecast, a_plan, a_json, a_handover, a_node,
  a_controller,
}

updates : (update_end_user_info "u" "bts01" "b" a_db).0 ≡ return tt
unfolding update_end_user_info get_user bts_info_of
updates = refl

served : get_service a_db "u" ≡ some a_service
unfolding get_service service_of Option.bind
served = refl

on_server : edge_server_of a_db a_service ≡ some a_server
unfolding edge_server_of
on_server = refl

owned : user_of a_db a_service ≡ some a_user
unfolding user_of
owned = refl

far :
    lifetime_to_mig a_forecast (set_state a_service "pre_migrated" a_db) "u" "edge02" "bts02"
    ≡ return (some 4890)
unfolding set_state lifetime_to_mig db_get_est_mig_time wait_for get_est_handover_time
    get_est_mig_time query_cur_assign service_of Option.bind
far = refl

handover_cycle_example :
    (d : Controller) × (process_handovered "u" "bts01" "b"
        (trigger_handover "u" a_handover a_controller)
      ≡ (return tt, d))
    × (d.migration_state "u" ≡ some running_state)
    × (d.handover_plan "u" ≡ none)
    × (d.published ≡ [] ++ handover "u" a_handover ∷ [])
handover_cycle_example =
    handover_cycle "u" "bts01" "b" a_handover a_handover a_controller refl refl updates

migration_cycle_example :
    (d : Controller) × (process_migrated a_node (
        trigger_migration a_plan "edge01" a_json
          (trigger_pre_migration "edge01" a_json a_controller))
      ≡ d)
    × (d.migration_state "u" ≡ some running_state)
    × (d.migrating_plan "u" ≡ none)
    × (d.published ≡ [] ++ pre_migrate "edge01" a_json ∷ migrate "edge01" a_json ∷ [])
migration_cycle_example =
    migration_cycle "u" "edge01" a_json a_plan a_node a_controller refl refl refl refl

abbrev late_timers : List Callback
late_timers =
    Callback.trigger_migration a_plan "edge01" a_json
    ∷ Callback.trigger_handover "u" a_handover
    ∷ []

process_pre_migrated-gives_up_example :
    (fire_all late_timers (process_pre_migrated a_forecast a_json a_controller).1).published ≡ []
process_pre_migrated-gives_up_example =
    process_pre_migrated-gives_up a_forecast a_json a_service running_state 4890 late_timers
      a_controller served refl refl far refl (refl, (refl, tt))

process_eu_notification-removes_example :
    (d : Controller) × (process_eu_notification "u" a_controller ≡ (return tt, d))
    × (d.published ≡ [] ++ destroy "edge01" (get_json a_db a_service) ∷ [])
    × (sample.first d.db.users "u" ≡ none)
    × (sample.first d.db.services "openfaceu" ≡ none)
process_eu_notification-removes_example =
    process_eu_notification-removes "u" a_service a_server a_user a_controller served on_server
      owned refl
