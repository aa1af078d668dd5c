-- ===== src/Controller/Rounds.antt =====
-- What happens to the controller between two reports: planning rounds of the optimizing planner and
-- timers that fire (centralized_controller.py), in any order.
use mec_measurements.Prelude.{◌+◌, ◌≤◌, String, List, [], ◌∷◌, All, arith}
use mec_measurements.Platform.{Platform}
use mec_measurements.Planner.Lifetime.{Forecast}
use mec_measurements.Controller.State.{Callback, Controller}
use mec_measurements.Controller.Triggers.{fire}
use mec_measurements.Controller.Triggers.Once.{
  IsConsistent, NoMore, fire-NoMore, room, migrations, pre_migrations, handovers,
}
use mec_measurements.Controller.Plans.{ComputePlan, run_optimization_planner}
use mec_measurements.Controller.Plans.Quiet.{run_optimization_planner-IsQuiet}

module _ ⦃p : Platform⦄ where
  pub data Event : Type 0 where
    plans : ComputePlan → Event
    fires : Callback → Event

  -- The plan and the service that a timer's callback carries are those of one user.
  abbrev pub IsConsistentEvent : Event → Type 0
  IsConsistentEvent (plans compute_plan) = Unit
  IsConsistentEvent (fires call) = IsConsistent call

  module _ (forecast : Forecast) where
    -- An exception ends a planning round, and the controller goes on.
    unfoldable pub happen : Event → Controller → Controller
    happen (plans compute_plan) c = (run_optimization_planner forecast compute_plan c).1
    happen (fires call) c = fire call c

    unfoldable pub happen_all : List Event → Controller → Controller
    unfolding happen
    happen_all [] c = c
    happen_all (event ∷ rest) c = happen_all rest (happen event c)

    happen-NoMore :
        (u : String) (event : Event) (c : Controller)
        → IsConsistentEvent event
        → NoMore u c (happen event c)
    unfolding happen
    happen-NoMore u (plans compute_plan) c same =
        let quiet = run_optimization_planner-IsQuiet forecast compute_plan c in
        record {
          migrations = rw (quiet.published, quiet.migration_state) (omega arith);
          pre_migrations = rw (quiet.published, quiet.migration_state) (omega arith);
          handovers = rw (quiet.published, quiet.migration_state) (omega arith);
        }
    happen-NoMore u (fires call) c same = fire-NoMore u call c same

    happen_all-NoMore :
        (u : String) (events : List Event) (c : Controller)
        → All IsConsistentEvent events
        → NoMore u c (happen_all events c)
    unfolding happen_all
    happen_all-NoMore u [] c same = omega arith
    happen_all-NoMore u (event ∷ rest) c same =
        let first = happen-NoMore u event c same.0 in
        let later = happen_all-NoMore u rest (happen event c) same.1 in omega arith

    -- However many rounds of the optimizing planner (run_optimization_planner) are run and timers fire,
    -- and in whatever order, but with no other handler between them, a user is sent at most one
    -- migration, one pre-migration and one handover more, and none of a kind whose bit is set in the
    -- user's word, if each timer's callback carries a plan and a service of one user.
    pub happen_all-once :
        (u : String) (events : List Event) (c : Controller)
        → All IsConsistentEvent events
        → (migrations u (happen_all events c)
            ≤ migrations u c + room (λ m. m.migrate) (c.migration_state u))
          × (pre_migrations u (happen_all events c)
              ≤ pre_migrations u c + room (λ m. m.pre_migrate) (c.migration_state u))
          × (handovers u (happen_all events c)
              ≤ handovers u c + room (λ m. m.handover) (c.migration_state u))
    happen_all-once u events c same =
        let none_more = happen_all-NoMore u events c same in omega arith
