-- ===== src/Controller/Plans/Owned.antt =====
-- The plans that the controller stores belong to users that it knows: `is_owned` and the planning
-- rounds (trigger_other_planners, run_optimization_planner).
use mec_measurements.Prelude.{
  String, Bool, true, false, Option, none, some, ◌≡◌, ◌==◌, ◌&&◌, is_some, if◌then◌else◌, arith,
  eq_iff, Bool-cases, Option-cases, inl, inr,
}
use mec_measurements.Platform.{Platform, Real}
use mec_measurements.Database.Rows.{ServiceInfo}
use mec_measurements.Database.Queries.{ServiceJson, get_json}
use mec_measurements.Database.Updates.{set_state}
use mec_measurements.Planner.Lifetime.{Forecast}
use mec_measurements.Controller.Word.{Word, pre_migrate_state}
use mec_measurements.Controller.State.{publish, pre_migrate, PlanResult, Stored, Controller}
use mec_measurements.Controller.Triggers.{trigger_handover, trigger_migration}
use mec_measurements.Controller.Plans.{
  is_ongoing, moved_json, ComputePlan, plan_migration, plan_handover, start_plan,
  run_optimization_planner, store_handover, store_migration, in_ms, the_user, the_bts, add_bits,
  hand_over_now, migrate_now, trigger_other_planners,
}
use mec_measurements.Controller.Plans.Loops.{
  run_optimization_planner-keeps, trigger_other_planners-keeps, Known,
}

module _ ⦃p : Platform⦄ where
  -- A stored migration is a plan for the user under whose key it stands.
  abbrev is_own : String → Option Stored → Bool
  is_own u none = true
  is_own u (some stored) = stored.plan.user == u

  -- The plans stored for a user: there are none before the user has a word.
  abbrev pub is_owned : String → Controller → Bool
  is_owned u c =
      is_own u (c.migrating_plan u)
      && (if is_some (c.migration_state u)
          then true
          else (if is_some (c.migrating_plan u) then false else true)
            && (if is_some (c.handover_plan u) then false else true))

  plan_migration-is_owned :
      (u : String) (plan : PlanResult) (service : ServiceInfo) (json : ServiceJson)
      (time_to_pre_mig time_to_mig : Option Real) (c : Controller)
      → Known plan.user c
      → is_owned u c ≡ true
      → is_owned u (plan_migration plan service json time_to_pre_mig time_to_mig c).1 ≡ true
  unfolding plan_migration store_handover store_migration in_ms the_user the_bts
  plan_migration-is_owned u plan service json time_to_pre_mig time_to_mig c known h =
      ground (arith, eq_iff plan.user u)

  plan_handover-is_owned :
      (u : String) (plan : PlanResult) (service : ServiceInfo) (time_to_mig : Option Real)
      (c : Controller)
      → Known plan.user c
      → is_owned u c ≡ true
      → is_owned u (plan_handover plan service time_to_mig c).1 ≡ true
  unfolding plan_handover store_handover the_user the_bts
  plan_handover-is_owned u plan service time_to_mig c known h = ground (arith, eq_iff plan.user u)

  start_plan-is_owned :
      (u : String) (plan : PlanResult) (service : ServiceInfo)
      (time_to_pre_mig time_to_mig : Option Real) (c : Controller)
      → Known plan.user c
      → is_owned u c ≡ true
      → is_owned u (start_plan plan service time_to_pre_mig time_to_mig c).1 ≡ true
  unfolding start_plan
  start_plan-is_owned u plan service time_to_pre_mig time_to_mig c known h =
      elim (Bool-cases (plan.next_server == service.server_name)) [
        | inl same ↦ rw same (plan_handover-is_owned u plan service time_to_mig c known h)
        | inr other ↦ elim (Option-cases (get_json c.db service)) [
          | inl e ↦ rw (other, e) h
          | inr (json, e) ↦
              rw (other, e)
                (plan_migration-is_owned u plan service json time_to_pre_mig time_to_mig c known h)
        ]
      ]

  hand_over_now-is_owned :
      (u : String) (plan : PlanResult) (c : Controller)
      → Known plan.user c
      → is_owned u c ≡ true
      → is_owned u (hand_over_now plan c).1 ≡ true
  unfolding hand_over_now add_bits store_handover the_bts trigger_handover
  hand_over_now-is_owned u plan c known h = ground (arith, eq_iff plan.user u)

  add_bits-is_owned :
      (u user : String) (bits : Word) (c : Controller)
      → is_owned u c ≡ true
      → is_owned u (add_bits user bits c) ≡ true
  unfolding add_bits
  add_bits-is_owned u user bits c h = ground (arith, eq_iff user u)

  add_bits-Known :
      (user : String) (bits : Word) (c : Controller)
      → Known user c
      → Known user (add_bits user bits c)
  unfolding add_bits
  add_bits-Known user bits c known = ground arith

  store_migration-is_owned :
      (u : String) (plan : PlanResult) (json : ServiceJson) (c : Controller)
      → Known plan.user c
      → is_owned u c ≡ true
      → is_owned u (store_migration plan json c) ≡ true
  unfolding store_migration
  store_migration-is_owned u plan json c known h = ground (arith, eq_iff plan.user u)

  pub trigger_migration-is_owned :
      (u server : String) (plan : PlanResult) (json : ServiceJson) (c : Controller)
      → is_owned u c ≡ true
      → is_owned u (trigger_migration plan server json c) ≡ true
  unfolding trigger_migration
  trigger_migration-is_owned u server plan json c h = ground (arith, eq_iff plan.user u)

  migrate_now-is_owned :
      (u : String) (plan : PlanResult) (service : ServiceInfo) (c : Controller)
      → Known plan.user c
      → is_owned u c ≡ true
      → is_owned u (migrate_now plan service c) ≡ true
  unfolding migrate_now
  migrate_now-is_owned u plan service c known h = elim (Bool-cases (is_ongoing service.state)) [
    | inl ongoing ↦ rw ongoing h
    | inr free ↦
        let prepared : Controller = record c { db = set_state service "pre_migrate" c.db } in
        let marked : Controller = add_bits plan.user pre_migrate_state prepared in
        let h' = add_bits-is_owned u plan.user pre_migrate_state prepared h in
        elim (Option-cases (get_json marked.db service)) [
          | inl e ↦ rw (free, e) h'
          | inr (json, e) ↦
              let moved : ServiceJson = moved_json marked.db plan json in
              rw (free, e)
                (trigger_migration-is_owned u service.server_name plan moved _ (
                  store_migration-is_owned u plan moved
                    (publish (pre_migrate service.server_name moved) marked)
                    (add_bits-Known plan.user pre_migrate_state prepared known) h'))
        ]
  ]

  pub run_optimization_planner-is_owned :
      (u : String) (forecast : Forecast) (compute_plan : ComputePlan) (c : Controller)
      → is_owned u c ≡ true
      → is_owned u (run_optimization_planner forecast compute_plan c).1 ≡ true
  run_optimization_planner-is_owned u forecast =
      run_optimization_planner-keeps (λ c. is_owned u c ≡ true) forecast (start_plan-is_owned u)

  pub trigger_other_planners-is_owned :
      (u : String) (compute_plan : ComputePlan) (c : Controller)
      → is_owned u c ≡ true
      → is_owned u (trigger_other_planners compute_plan c).1 ≡ true
  trigger_other_planners-is_owned u =
      trigger_other_planners-keeps (λ c. is_owned u c ≡ true) (hand_over_now-is_owned u)
        (migrate_now-is_owned u)
