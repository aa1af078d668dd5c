-- ===== src/Controller/System.antt =====
-- The controller as a step relation: one step is one handler of centralized_controller.py, or one
-- timer that fires. A timer that was started stays in `timers`, so that it may fire at any
-- time and any number of times; that is more than the code can do.
pub mod Owned
use mec_measurements.Prelude.{ℕ, Option, String, none, List, [], ◌++◌, ◌∷◌, ◌≡◌}
use mec_measurements.Prelude.Dict
use mec_measurements.Platform.{Platform, Real}
use mec_measurements.Edge.MigrateNode.{MigrateNode}
use mec_measurements.Database.Rows.{DbCentral}
use mec_measurements.Database.Queries.{ServiceJson}
use mec_measurements.Planner.Lifetime.{Forecast}
use mec_measurements.Controller.State.{PlanType, Discovery, Controller, Timer, Callback}
use mec_measurements.Controller.Triggers.{fire}
use mec_measurements.Controller.Plans.{
  ComputePlan, run_optimization_planner, trigger_other_planners,
}
use mec_measurements.Controller.Reports.{
  process_pre_migrated, process_migrated, process_handovered, process_allocated,
}
use mec_measurements.Effects.{Action}
use mec_measurements.Database.Servers.{Registration, EuService}
use mec_measurements.Controller.Discovery.{Place, process_discovery, process_eu_notification}
use mec_measurements.Controller.Servers.{
  process_edge_register, process_edge_monitor, process_monitor_server_status,
  process_edge_notification,
}
use mec_measurements.Database.Migrations.{MigrateReport}
use mec_measurements.Database.Containers.{ContainerReport}
use mec_measurements.Controller.Records.{process_migrate_report, process_monitor_container}
use mec_measurements.Controller.Monitors.{process_monitor_eu, process_monitor_service}

module _ ⦃p : Platform⦄ where
  -- CentralizedController.__init__
  unfoldable pub init : DbCentral → PlanType → String → Controller
  init database planner migrate_method = record {
    db = database;
    planner_type = planner;
    migrate_method = migrate_method;
    migration_state = Dict.empty;
    migrating_plan = Dict.empty;
    handover_plan = Dict.empty;
    published = [];
    timers = [];
  }

  module _ (forecast : Forecast) (compute_plan : ComputePlan) (place_service : Place) where
    pub data Step : Controller → Controller → Type 0 where
      optimizes : (c : Controller) → Step c (run_optimization_planner forecast compute_plan c).1
      plans_otherwise : (c : Controller) → Step c (trigger_other_planners compute_plan c).1
      fires :
          (t : Timer) (earlier later : List Timer) (c : Controller)
          → c.timers ≡ earlier ++ t ∷ later
          → Step c (fire t.callback c)
      pre_migrated :
          (json : ServiceJson) (c : Controller) → Step c (process_pre_migrated forecast json c).1
      migrated : (node : MigrateNode) (c : Controller) → Step c (process_migrated node c)
      handovered :
          (end_user ssid bssid : String) (c : Controller)
          → Step c (process_handovered end_user ssid bssid c).1
      allocated : (node : MigrateNode) (c : Controller) → Step c (process_allocated node c).1
      discovers :
          (json : Discovery) (c : Controller) → Step c (process_discovery place_service json c).1
      leaves : (end_user : String) (c : Controller) → Step c (process_eu_notification end_user c).1
      registers : (r : Registration) (c : Controller) → Step c (process_edge_register r c)
      measures :
          (now : ℕ) (server_in_topic src_ip dst_ip : String) (latency bw : Real) (c : Controller)
          → Step c (process_edge_monitor now server_in_topic src_ip dst_ip latency bw c).1
      reports_status :
          (name : String) (cpu_max cpu_cores : Option ℕ)
          (mem_total mem_free disk_total disk_free : Option Real) (c : Controller)
          → Step c (
              process_monitor_server_status name cpu_max cpu_cores mem_total mem_free disk_total
                disk_free c)
      is_lost :
          (server_name : String) (c : Controller)
          → Step c (process_edge_notification place_service server_name c).1
      hears_signals :
          (end_user : String) (update_rssi_monitor : Action DbCentral Real) (c : Controller)
          → Step c (process_monitor_eu forecast compute_plan end_user update_rssi_monitor c).1
      hears_requests :
          (now : ℕ) (r : EuService) (c : Controller)
          → Step c (process_monitor_service forecast compute_plan now r c).1
      reports_migration :
          (now : ℕ) (report_type server_name : String) (r : MigrateReport) (c : Controller)
          → Step c (process_migrate_report now report_type server_name r c).1
      reports_container :
          (r : ContainerReport) (c : Controller) → Step c (process_monitor_container r c).1

    -- The states of a controller that starts in `first`.
    pub data Reachable (first : Controller) : Controller → Type 0 where
      starts : Reachable first first
      steps : {c d : Controller} → Reachable first c → Step c d → Reachable first d
