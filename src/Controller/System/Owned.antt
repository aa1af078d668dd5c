-- ===== src/Controller/System/Owned.antt =====
-- The plans that the controller stores, over every run of its handlers.
use mec_measurements.Prelude.{String, true, ◌≡◌, refl, arith, eq_iff}
use mec_measurements.Platform.{Platform}
use mec_measurements.Database.Rows.{DbCentral}
use mec_measurements.Planner.Lifetime.{Forecast}
use mec_measurements.Controller.State.{PlanType, Controller, Callback}
use mec_measurements.Controller.Triggers.{fire, trigger_handover, trigger_pre_migration}
use mec_measurements.Controller.Plans.{ComputePlan}
use mec_measurements.Controller.Plans.Owned.{
  is_owned, trigger_migration-is_owned, run_optimization_planner-is_owned,
  trigger_other_planners-is_owned,
}
use mec_measurements.Controller.Discovery.{Place}
use mec_measurements.Controller.System.{
  init, Step, optimizes, plans_otherwise, fires, pre_migrated, migrated, handovered, allocated,
  discovers, leaves, registers, measures, reports_status, is_lost, hears_signals, hears_requests,
  reports_migration, reports_container, Reachable, starts, steps,
}
use mec_measurements.Controller.Reports.Owned.{
  process_pre_migrated-is_owned, process_migrated-is_owned, process_handovered-is_owned,
  process_allocated-is_owned,
}
use mec_measurements.Controller.Discovery.Owned.{
  process_discovery-is_owned, process_eu_notification-is_owned,
}
use mec_measurements.Controller.Servers.{
  process_edge_register, publish_list_servers, process_monitor_server_status,
}
use mec_measurements.Controller.Servers.Owned.{
  process_edge_monitor-is_owned, process_edge_notification-is_owned,
}
use mec_measurements.Controller.Monitors.Laws.{
  process_monitor_eu-is_owned, process_monitor_service-is_owned,
}
use mathlib.Core.Path.{subst, sym}
use mec_measurements.Controller.Records.{process_migrate_report-eq, process_monitor_container}

module _ ⦃p : Platform⦄ (u : String) where
  fire-is_owned :
      (call : Callback) (c : Controller) → is_owned u c ≡ true → is_owned u (fire call c) ≡ true
  unfolding fire trigger_handover trigger_pre_migration
  fire-is_owned (Callback.trigger_handover user json) c h = ground (arith, eq_iff user u)
  fire-is_owned (Callback.trigger_pre_migration server json) c h =
      ground (arith, eq_iff json.end_user u)
  fire-is_owned (Callback.trigger_migration plan server json) c h =
      trigger_migration-is_owned u server plan json c h

  module _ (forecast : Forecast) (compute_plan : ComputePlan) (place_service : Place) where
    Step-is_owned :
        {c d : Controller}
        → is_owned u c ≡ true
        → Step forecast compute_plan place_service c d
        → is_owned u d ≡ true
    unfolding process_edge_register publish_list_servers process_monitor_server_status
        process_monitor_container
    Step-is_owned h (optimizes c) = run_optimization_planner-is_owned u forecast compute_plan c h
    Step-is_owned h (plans_otherwise c) = trigger_other_planners-is_owned u compute_plan c h
    Step-is_owned h (fires t earlier later c at) = fire-is_owned t.callback c h
    Step-is_owned h (pre_migrated json c) = process_pre_migrated-is_owned u forecast json c h
    Step-is_owned h (migrated node c) = process_migrated-is_owned u node c h
    Step-is_owned h (handovered end_user ssid bssid c) =
        process_handovered-is_owned u end_user ssid bssid c h
    Step-is_owned h (allocated node c) = process_allocated-is_owned u node c h
    Step-is_owned h (discovers json c) = process_discovery-is_owned u place_service json c h
    Step-is_owned h (leaves end_user c) = process_eu_notification-is_owned u end_user c h
    Step-is_owned h (registers r c) = h
    Step-is_owned h (measures now topic src_ip dst_ip latency bw c) =
        process_edge_monitor-is_owned u now topic src_ip dst_ip latency bw c h
    Step-is_owned h
          (reports_status name cpu_max cpu_cores mem_total mem_free disk_total disk_free c) =
        h
    Step-is_owned h (is_lost server_name c) =
        process_edge_notification-is_owned u place_service server_name c h
    Step-is_owned h (hears_signals user update_rssi_monitor c) =
        process_monitor_eu-is_owned forecast compute_plan u user update_rssi_monitor c h
    Step-is_owned h (hears_requests now r c) =
        process_monitor_service-is_owned forecast compute_plan u now r c h
    Step-is_owned h (reports_migration now report_type server_name r c) =
        subst (λ d. is_owned u d ≡ true)
          (sym (process_migrate_report-eq now report_type server_name r c)) h
    Step-is_owned h (reports_container r c) = h

    -- In every state that the controller reaches from its start, by its handlers and timers in any
    -- order, a migration that is stored for a user is a plan for that user, and nothing is stored
    -- for a user who has no migration state.
    pub Reachable-is_owned :
        (database : DbCentral) (planner : PlanType) (migrate_method : String) (c : Controller)
        → Reachable forecast compute_plan place_service (init database planner migrate_method) c
        → is_owned u c ≡ true
    unfolding init
    Reachable-is_owned database planner migrate_method c starts = refl
    Reachable-is_owned database planner migrate_method d (steps {c = c} run step) =
        Step-is_owned (Reachable-is_owned database planner migrate_method c run) step
