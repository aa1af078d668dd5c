-- ===== src/Examples/Controlling.antt =====
-- The theorems on the whole controller, applied.
use mec_measurements.Prelude.{◌+◌, ◌≤◌, true, Option, none, some, List, [], ◌∷◌, ◌≡◌, refl, ap, sym}
use mec_measurements.Effects.{return}
use mec_measurements.Controller.State.{Stored, Controller, Callback, optimized}
use mec_measurements.Controller.Triggers.Once.{room, migrations, pre_migrations, handovers}
use mec_measurements.Controller.Plans.{ComputePlan, run_optimization_planner}
use mec_measurements.Controller.Plans.Owned.{is_owned}
use mec_measurements.Controller.Plans.Quiet.{IsQuiet, run_optimization_planner-IsQuiet}
use mec_measurements.Controller.Reports.{
  process_pre_migrated, process_migrated, process_handovered, process_allocated,
}
use mec_measurements.Controller.Reports.Frame.{IsSame, reports-IsSame}
use mec_measurements.Controller.Rounds.{Event, plans, fires, happen_all, happen_all-once}
use mec_measurements.Controller.Discovery.{Place}
use mec_measurements.Controller.System.{init, optimizes, handovered, Reachable, starts, steps}
use mec_measurements.Controller.System.Owned.{Reachable-is_owned}
use mec_measurements.Examples.{
  sample, a_db, a_forecast, a_plan, a_json, a_handover, a_node, a_controller,
}

abbrev one_plan : ComputePlan
one_plan db = return (a_plan ∷ [])

abbrev some_events : List Event
some_events =
    plans one_plan
    ∷ fires (Callback.trigger_handover "u" a_handover)
    ∷ fires (Callback.trigger_migration a_plan "edge01" a_json)
    ∷ fires (Callback.trigger_pre_migration "edge01" a_json)
    ∷ []

happen_all-once_example :
    (migrations "u" (happen_all a_forecast some_events a_controller)
      ≤ migrations "u" a_controller + room (λ m. m.migrate) (a_controller.migration_state "u"))
    × (pre_migrations "u" (happen_all a_forecast some_events a_controller)
        ≤ pre_migrations "u" a_controller
          + room (λ m. m.pre_migrate) (a_controller.migration_state "u"))
    × (handovers "u" (happen_all a_forecast some_events a_controller)
        ≤ handovers "u" a_controller + room (λ m. m.handover) (a_controller.migration_state "u"))
happen_all-once_example =
    happen_all-once a_forecast "u" some_events a_controller (tt, (tt, (refl, (tt, tt))))

abbrev a_place : Place
a_place db user service ssid bssid = return "edge01"

-- A planning round and a report after the start.
abbrev two_steps : Controller
two_steps =
    (process_handovered "u" "bts02" "b"
      (run_optimization_planner a_forecast one_plan (init a_db optimized "pre-copy")).1).1

two_steps-Reachable :
    Reachable a_forecast one_plan a_place (init a_db optimized "pre-copy") two_steps
two_steps-Reachable = steps (steps starts (optimizes (init a_db optimized "pre-copy"))) (
    handovered "u" "bts02" "b"
      (run_optimization_planner a_forecast one_plan (init a_db optimized "pre-copy")).1)

Reachable-is_owned_example : is_owned "u" two_steps ≡ true
Reachable-is_owned_example =
    Reachable-is_owned "u" a_forecast one_plan a_place a_db optimized "pre-copy" two_steps
      two_steps-Reachable

run_optimization_planner-IsQuiet_example :
    IsQuiet a_controller (run_optimization_planner a_forecast one_plan a_controller).1
run_optimization_planner-IsQuiet_example =
    run_optimization_planner-IsQuiet a_forecast one_plan a_controller

reports-IsSame_example :
    IsSame "v" a_controller (process_pre_migrated a_forecast a_json a_controller).1
    × IsSame "v" a_controller (process_migrated a_node a_controller)
    × IsSame "v" a_controller (process_handovered "u" "bts02" "b" a_controller).1
    × IsSame "v" a_controller (process_allocated a_node a_controller).1
reports-IsSame_example =
    reports-IsSame a_forecast "u" "v" "bts02" "b" a_json a_node a_controller refl refl refl
      (λ s e. ap (λ (o : Option Stored). elim o [ none ↦ "u" | some x ↦ x.plan.user ]) (sym e))
