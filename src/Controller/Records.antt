-- ===== src/Controller/Records.antt =====
-- The reports that the controller keeps for its estimates (centralized_controller.py): those of the
-- two ends of a migration, and those of the monitors of containers. A handler takes the decoded
-- payload.
use mec_measurements.Prelude.{ℕ, String, Bool, ◌==◌, ◌≡◌, arith, if◌then◌else◌}
use mec_measurements.Platform.{Platform}
use mec_measurements.Effects.{type_error, Action, needed, modify, skip, ◌>>=◌, ◌>>◌}
use mec_measurements.Database.Rows.{DbCentral}
use mec_measurements.Database.Migrations.{
  MigrateReport, update_migrate_record_source, update_migrate_record_dest, update_phi, update_rho,
  update_t_pre_mig,
}
use mec_measurements.Database.Containers.{ContainerReport, update_container_monitor}
use mec_measurements.Controller.State.{Controller}
use mec_measurements.Controller.Reports.{is_optimized, on_db}

module _ ⦃p : Platform⦄ where
  -- The source's report, at the time `now`.
  unfoldable pub report_source :
      (optimized : Bool) → ℕ → MigrateReport → Action DbCentral (Unit {0})
  report_source optimized now r = modify (update_migrate_record_source now r) >> λ db.
      if optimized
      then (update_phi r.source >> needed type_error r.prepare >>= λ t_pre_mig.
            update_t_pre_mig r.service r.source r.dest t_pre_mig)
          db
      else skip db

  unfoldable pub report_dest : (optimized : Bool) → ℕ → MigrateReport → Action DbCentral (Unit {0})
  report_dest optimized now r =
      modify (λ db. (update_migrate_record_dest now 60000000 r db).1) >> λ db.
      if optimized then update_rho r.dest db else skip db

  -- The topic has the kind of the report and the server that sends it.
  unfoldable pub process_migrate_report :
      ℕ → (report_type server_name : String) → MigrateReport → Action Controller (Unit {0})
  process_migrate_report now report_type server_name r c =
      let optimized = is_optimized c.planner_type in
      if report_type == "source"
      then (if r.source == server_name then on_db (report_source optimized now r) c else skip c)
      else if report_type == "dest"
      then (if r.dest == server_name then on_db (report_dest optimized now r) c else skip c)
      else skip c

  unfoldable pub process_monitor_container : ContainerReport → Action Controller (Unit {0})
  process_monitor_container r c = on_db (update_container_monitor (is_optimized c.planner_type) r) c

  -- These reports change the database alone.
  pub process_migrate_report-eq :
      (now : ℕ) (report_type server_name : String) (r : MigrateReport) (c : Controller)
      → (process_migrate_report now report_type server_name r c).1
        ≡ record c { db = (process_migrate_report now report_type server_name r c).1.db }
  unfolding process_migrate_report
  process_migrate_report-eq now report_type server_name r c = ground (arith)
