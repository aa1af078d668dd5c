-- ===== src/Controller/Plans/Quiet.antt =====
-- What a round of the optimizing planner (run_optimization_planner) leaves alone, on every path and
-- also where it raises.
use mec_measurements.Prelude.{Option, ◌≡◌, refl, ◌==◌, arith, Bool-cases, Option-cases, inl, inr}
use mec_measurements.Platform.{Platform, Real}
use mec_measurements.Database.Rows.{ServiceInfo}
use mec_measurements.Database.Queries.{ServiceJson, get_json}
use mec_measurements.Planner.Lifetime.{Forecast}
use mec_measurements.Controller.State.{PlanResult, Controller}
use mec_measurements.Controller.Plans.{
  ComputePlan, plan_migration, plan_handover, start_plan, run_optimization_planner, store_handover,
  store_migration, in_ms, the_user, the_bts,
}
use mec_measurements.Controller.Plans.Loops.{run_optimization_planner-keeps}

module _ ⦃p : Platform⦄ where
  -- No message, no change of a word, of the database or of the configuration.
  pub record IsQuiet (before after : Controller) : Type 0 where
    pub published : after.published ≡ before.published
    pub migration_state : after.migration_state ≡ before.migration_state
    pub db : after.db ≡ before.db
    pub planner_type : after.planner_type ≡ before.planner_type

  IsQuiet-trans : (a b c : Controller) → IsQuiet a b → IsQuiet b c → IsQuiet a c
  IsQuiet-trans a b c first later = record {
    published = ground (arith, first.published, later.published);
    migration_state = ground (arith, first.migration_state, later.migration_state);
    db = ground (arith, first.db, later.db);
    planner_type = ground (arith, first.planner_type, later.planner_type);
  }

  IsQuiet-refl : (c : Controller) → IsQuiet c c
  IsQuiet-refl c = record {
    published = refl;
    migration_state = refl;
    db = refl;
    planner_type = refl;
  }

  plan_migration-IsQuiet :
      (plan : PlanResult) (service : ServiceInfo) (json : ServiceJson)
      (time_to_pre_mig time_to_mig : Option Real) (c : Controller)
      → IsQuiet c (plan_migration plan service json time_to_pre_mig time_to_mig c).1
  unfolding plan_migration store_handover store_migration in_ms the_user the_bts
  plan_migration-IsQuiet plan service json time_to_pre_mig time_to_mig c = record {
    published = ground arith;
    migration_state = ground arith;
    db = ground arith;
    planner_type = ground arith;
  }

  plan_handover-IsQuiet :
      (plan : PlanResult) (service : ServiceInfo) (time_to_mig : Option Real) (c : Controller)
      → IsQuiet c (plan_handover plan service time_to_mig c).1
  unfolding plan_handover store_handover the_user the_bts
  plan_handover-IsQuiet plan service time_to_mig c = record {
    published = ground arith;
    migration_state = ground arith;
    db = ground arith;
    planner_type = ground arith;
  }

  start_plan-IsQuiet :
      (plan : PlanResult) (service : ServiceInfo) (time_to_pre_mig time_to_mig : Option Real)
      (c : Controller)
      → IsQuiet c (start_plan plan service time_to_pre_mig time_to_mig c).1
  unfolding start_plan
  start_plan-IsQuiet plan service time_to_pre_mig time_to_mig c =
      elim (Bool-cases (plan.next_server == service.server_name)) [
        | inl same ↦ rw same (plan_handover-IsQuiet plan service time_to_mig c)
        | inr other ↦ elim (Option-cases (get_json c.db service)) [
          | inl e ↦ rw (other, e) (IsQuiet-refl c)
          | inr (json, e) ↦
              rw (other, e) (plan_migration-IsQuiet plan service json time_to_pre_mig time_to_mig c)
        ]
      ]

  -- A run of the optimizing planner, whatever the plans are and also where it raises, publishes no
  -- message and changes no word of a user, nothing of the database and not the kind of planner.
  pub run_optimization_planner-IsQuiet :
      (forecast : Forecast) (compute_plan : ComputePlan) (c : Controller)
      → IsQuiet c (run_optimization_planner forecast compute_plan c).1
  run_optimization_planner-IsQuiet forecast compute_plan c =
      run_optimization_planner-keeps (IsQuiet c) forecast
        (λ plan service pre_mig mig d known quiet.
          IsQuiet-trans c d (start_plan plan service pre_mig mig d).1 quiet
            (start_plan-IsQuiet plan service pre_mig mig d))
        compute_plan c (IsQuiet-refl c)
