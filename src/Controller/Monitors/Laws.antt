-- ===== src/Controller/Monitors/Laws.antt =====
-- What the monitors' reports start (centralized_controller.py).
use mec_measurements.Prelude.{
  ℕ, String, Bool, true, false, none, some, ◌≡◌, refl, ◌&&◌, ◌⊎◌, inl, inr, if◌then◌else◌, arith,
}
use mec_measurements.Platform.{Platform, Real}
use mec_measurements.Effects.{Result, return, Action}
use mec_measurements.Database.Rows.{DbCentral}
use mec_measurements.Database.Servers.{EuService, update_eu_service_monitor}
use mec_measurements.Planner.Lifetime.{Forecast}
use mec_measurements.Controller.Word.{Word, is_migrating}
use mec_measurements.Controller.State.{Controller}
use mec_measurements.Controller.Plans.{ComputePlan, run_optimization_planner}
use mec_measurements.Controller.Reports.{is_optimized}
use mec_measurements.Controller.Plans.Loops.{and_then-keeps}
use mec_measurements.Controller.Plans.Owned.{
  is_owned, run_optimization_planner-is_owned, trigger_other_planners-is_owned,
}
use mec_measurements.Controller.Monitors.{
  unless_migrating, signal_round, process_monitor_eu, process_monitor_service,
}

module _ ⦃p : Platform⦄ (forecast : Forecast) (compute_plan : ComputePlan) where
  if-keeps :
      (P : Controller → Type 0) (b : Bool) (x y : Result (Unit {0}) × Controller)
      → P x.1
      → P y.1
      → P (if b then x else y).1
  if-keeps P true x y hx hy = hx
  if-keeps P false x y hx hy = hy

  -- The user is unknown, or one of the bits of a move is set in the user's word.
  abbrev pub Rests : String → Controller → Type 0
  Rests user c =
      (c.migration_state user ≡ none)
      ⊎ ((m : Word) × (c.migration_state user ≡ some m)
          × ((m.pre_migrate ≡ true) ⊎ ((m.pre_migrated ≡ true) ⊎ (m.migrate ≡ true))))

  moving-is_migrating :
      (m : Word)
      → (m.pre_migrate ≡ true) ⊎ ((m.pre_migrated ≡ true) ⊎ (m.migrate ≡ true))
      → is_migrating m ≡ true
  moving-is_migrating m (inl h) = ground arith
  moving-is_migrating m (inr (inl h)) = ground arith
  moving-is_migrating m (inr (inr h)) = ground arith

  unless_migrating-Rests :
      (user : String) (round : Action Controller (Unit {0})) (c : Controller)
      → Rests user c
      → unless_migrating forecast compute_plan user round c ≡ (return tt, c)
  unfolding unless_migrating
  unless_migrating-Rests user round c (inl e) = rw (unless_migrating, e) refl
  unless_migrating-Rests user round c (inr (m, e, f)) =
      rw (unless_migrating, e, moving-is_migrating m f) refl

  -- If the bit PRE_MIGRATE, PRE_MIGRATED or MIGRATE is set in the user's word, or the user is
  -- unknown, then its reports of signals and of requests do to the database what the two updates of
  -- the database do, and change nothing else: they send nothing, start no timer and store no plan.
  pub reports-OnlyDb :
      (user : String) (update_rssi_monitor : Action DbCentral Real) (now : ℕ) (r : EuService)
      (c : Controller)
      → Rests user c
      → Rests r.end_user c
      → ((process_monitor_eu forecast compute_plan user update_rssi_monitor c).1
          ≡ record c { db = (update_rssi_monitor c.db).1 })
        × ((process_monitor_service forecast compute_plan now r c).1
            ≡ record c { db = (update_eu_service_monitor now r c.db).1 })
  unfolding process_monitor_eu process_monitor_service
  reports-OnlyDb user update_rssi_monitor now r c h k =
      let measured = update_rssi_monitor c.db in
      let stored : Controller = record c { db = measured.1 } in
      let (violated, db) = update_eu_service_monitor now r c.db in
      let counted : Controller = record c { db = db } in
      (
        and_then-keeps (λ d. d ≡ stored) measured.0
            (λ rssi.
              unless_migrating forecast compute_plan user
                (signal_round forecast compute_plan user rssi))
            stored refl
            (λ rssi.
              rw
                (unless_migrating-Rests user (signal_round forecast compute_plan user rssi) stored
                  h)
                refl),
        if-keeps (λ d. d ≡ counted) (is_optimized c.planner_type && violated)
            (unless_migrating forecast compute_plan r.end_user
              (run_optimization_planner forecast compute_plan) counted)
            (return tt, counted)
            (rw
              (unless_migrating-Rests r.end_user (run_optimization_planner forecast compute_plan)
                counted k)
              refl)
            refl,
      )

  module _ (u : String) where
    unless_migrating-is_owned :
        (user : String) (round : Action Controller (Unit {0})) (c : Controller)
        → is_owned u c ≡ true
        → is_owned u (round c).1 ≡ true
        → is_owned u (unless_migrating forecast compute_plan user round c).1 ≡ true
    unfolding unless_migrating
    unless_migrating-is_owned user round c h k = ground arith

    signal_round-is_owned :
        (user : String) (rssi : Real) (c : Controller)
        → is_owned u c ≡ true
        → is_owned u (signal_round forecast compute_plan user rssi c).1 ≡ true
    unfolding signal_round
    signal_round-is_owned user rssi c h = ground (
      arith,
      run_optimization_planner-is_owned u forecast compute_plan c h,
      trigger_other_planners-is_owned u compute_plan c h,
    )

    pub process_monitor_service-is_owned :
        (now : ℕ) (r : EuService) (c : Controller)
        → is_owned u c ≡ true
        → is_owned u (process_monitor_service forecast compute_plan now r c).1 ≡ true
    unfolding process_monitor_service
    process_monitor_service-is_owned now r c h =
        let (violated, db) = update_eu_service_monitor now r c.db in
        let counted : Controller = record c { db = db } in
        if-keeps (λ c. is_owned u c ≡ true) (is_optimized c.planner_type && violated)
          (unless_migrating forecast compute_plan r.end_user
            (run_optimization_planner forecast compute_plan) counted)
          (return tt, counted)
          (unless_migrating-is_owned r.end_user (run_optimization_planner forecast compute_plan)
            counted h (run_optimization_planner-is_owned u forecast compute_plan counted h))
          h

    pub process_monitor_eu-is_owned :
        (user : String) (update_rssi_monitor : Action DbCentral Real) (c : Controller)
        → is_owned u c ≡ true
        → is_owned u (process_monitor_eu forecast compute_plan user update_rssi_monitor c).1 ≡ true
    unfolding process_monitor_eu
    process_monitor_eu-is_owned user update_rssi_monitor c h =
        let measured = update_rssi_monitor c.db in
        let stored : Controller = record c { db = measured.1 } in
        and_then-keeps (λ c. is_owned u c ≡ true) measured.0
          (λ rssi.
            unless_migrating forecast compute_plan user
              (signal_round forecast compute_plan user rssi))
          stored h
          (λ rssi.
            unless_migrating-is_owned user (signal_round forecast compute_plan user rssi) stored h
              (signal_round-is_owned user rssi stored h))
