-- ===== src/Controller/Monitors.antt =====
-- The reports that may start a planning round (centralized_controller.py): process_monitor_eu of a
-- user's signals and process_monitor_service of a user's requests.
pub mod Laws
use mec_measurements.Prelude.{ℕ, String, Bool, true, false, Option, none, some, ◌&&◌, if◌then◌else◌}
use mec_measurements.Platform.{Platform, Real}
use mec_measurements.Effects.{Result, return, raise, Action, modify, skip, ◌>>=◌}
use mec_measurements.Database.Rows.{DbCentral}
use mec_measurements.Database.Servers.{EuService, update_eu_service_monitor}
use mec_measurements.Planner.Lifetime.{Forecast, lifetime_to_average_pre_mig}
use mec_measurements.Planner.Stats.{rssi_threshold}
use mec_measurements.Controller.Word.{Word, is_migrating}
use mec_measurements.Controller.State.{Controller}
use mec_measurements.Controller.Plans.{
  ComputePlan, run_optimization_planner, trigger_other_planners,
}
use mec_measurements.Controller.Reports.{is_optimized, on_db}

module _ ⦃p : Platform⦄ where
  open p use {of_ℕ, lt}

  module _ (forecast : Forecast) (compute_plan : ComputePlan) where
    -- A round, unless the user is unknown or its service is being moved.
    pub unless_migrating : String → Action Controller (Unit {0}) → Action Controller (Unit {0})
    unless_migrating end_user round c = elim (c.migration_state end_user) [
      | none ↦ (return tt, c)
      | some m_state ↦ if is_migrating m_state then (return tt, c) else round c
    ]

    -- The round that a report of the signals starts.
    pub signal_round : String → Real → Action Controller (Unit {0})
    signal_round end_user current_rssi c =
        if is_optimized c.planner_type
        then elim (lifetime_to_average_pre_mig forecast c.db end_user) [
          | raise e ↦ (raise e, c)
          | return none ↦ (return tt, c)
          | return (some (average, time_to_avg_pre_mig)) ↦
              if lt time_to_avg_pre_mig (of_ℕ 60)
              then run_optimization_planner forecast compute_plan c
              else (return tt, c)
        ]
        else if lt rssi_threshold current_rssi
        then (return tt, c)
        else trigger_other_planners compute_plan c

    -- `update_rssi_monitor` stores the signals, with the regressions of sklearn, and gives that of
    -- the current base station; it is a parameter.
    pub process_monitor_eu : String → Action DbCentral Real → Action Controller (Unit {0})
    unfolding unless_migrating signal_round
    process_monitor_eu end_user update_rssi_monitor = do
      current_rssi ← on_db update_rssi_monitor
      unless_migrating end_user (signal_round end_user current_rssi)

    pub process_monitor_service : ℕ → EuService → Action Controller (Unit {0})
    unfolding unless_migrating
    process_monitor_service now r c =
        let (violate_sla, db) = update_eu_service_monitor now r c.db in
        let reported : Controller = record c { db = db } in
        if is_optimized c.planner_type && violate_sla
        then unless_migrating r.end_user (run_optimization_planner forecast compute_plan) reported
        else (return tt, reported)
