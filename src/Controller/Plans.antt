-- ===== src/Controller/Plans.antt =====
-- How the controller carries out the plans of a planner (centralized_controller.py): the loops of
-- run_optimization_planner and trigger_other_planners. `ComputePlan` is the planner's compute_plan.
pub mod Loops
pub mod Quiet
pub mod Owned
use mec_measurements.Prelude.{
  String, Bool, true, false, Option, none, some, List, [], ◌∷◌, ◌==◌, ◌||◌, if◌then◌else◌,
}
use mec_measurements.Prelude.Dict.{put}
use mec_measurements.Platform.{Platform, Real}
use mec_measurements.Effects.{
  Result, return, attribute_error, type_error, Action, needed, modify, skip, throw, pure, ◌>>=◌,
  ◌>>◌,
}
use mec_measurements.Database.Rows.{ServiceInfo, EndUserInfo, BtsInfo, DbCentral}
use mec_measurements.Database.Queries.{
  ServiceJson, get_service, get_bts, get_json, get_server_ip, user_of,
}
use mec_measurements.Database.Updates.{set_state}
use mec_measurements.Planner.Lifetime.{Forecast, lifetime_to_mig, lifetime_to_pre_mig}
use mec_measurements.Controller.Word.{Word, pre_migrate_state, handover_state, ◌∪◌, is_migrating}
use mec_measurements.Controller.State.{
  PlanResult, HandoverJson, Controller, Callback, pre_migrate, publish, start, set_word,
}
use mec_measurements.Controller.Triggers.{trigger_handover, trigger_migration}

module _ ⦃p : Platform⦄ where
  open p use {of_ℕ, times, lt}

  abbrev pub ComputePlan : Type 0
  ComputePlan = DbCentral → Result (List PlanResult)

  -- The service as JSON, with the server and the base station of the plan.
  moved_json : DbCentral → PlanResult → ServiceJson → ServiceJson
  moved_json db plan json = record json {
    server_name = plan.next_server;
    ip = get_server_ip db plan.next_server;
    ssid = plan.next_bts;
  }

  handover_json : BtsInfo → Real → HandoverJson
  handover_json bts elapsed_time = record {
    next_ssid = bts.name;
    next_bssid = bts.bssid;
    next_password = bts.pwd;
    elapsed_time = elapsed_time;
  }

  store_handover : String → HandoverJson → Controller → Controller
  store_handover end_user json c = record c { handover_plan = put c.handover_plan end_user json }

  store_migration : PlanResult → ServiceJson → Controller → Controller
  store_migration plan json c = record c {
    migrating_plan = put c.migrating_plan plan.user (record { plan = plan; service = json });
  }

  -- self.migration_state[user] |= bits
  add_bits : String → Word → Controller → Controller
  add_bits user bits c = elim (c.migration_state user) [
    | none ↦ c
    | some m ↦ set_word user (m ∪ bits) c
  ]

  -- t is not None and t < n
  abbrev earlier : Option Real → Real → Bool
  earlier none bound = false
  earlier (some t) bound = lt t bound

  -- t * 1000, which raises for None
  in_ms : Option Real → Action Controller Real
  in_ms none = throw type_error
  in_ms (some t) = pure (times t (of_ℕ 1000))

  -- service.user, as an object
  the_user : ServiceInfo → Action Controller EndUserInfo
  the_user service c = needed attribute_error (user_of c.db service) c

  the_bts : String → Action Controller BtsInfo
  the_bts name c = needed attribute_error (get_bts c.db name) c

  -- A change of the server: the pre-migration is scheduled, and the plans of the migration and the
  -- handover are kept for the report.
  plan_migration :
      PlanResult
      → ServiceInfo
      → ServiceJson
      → (time_to_pre_mig time_to_mig : Option Real) → Action Controller (Unit {0})
  unfolding moved_json handover_json store_handover store_migration in_ms the_user the_bts
  plan_migration plan service json none time_to_mig c = (return tt, c)
  plan_migration plan service json (some time_to_pre_mig) time_to_mig c =
      if lt time_to_pre_mig (of_ℕ 60)
      then (do
        modify λ c. store_migration plan (moved_json c.db plan json) (
            start time_to_pre_mig
              (Callback.trigger_pre_migration service.server_name (moved_json c.db plan json)) c)
        user ← the_user service
        if plan.next_bts == user.bts then skip else do
          bts ← the_bts plan.next_bts
          elapsed_time ← in_ms time_to_mig
          modify (store_handover plan.user (handover_json bts elapsed_time)))
          c
      else (return tt, c)

  -- A change of the base station alone, less than two seconds ahead.
  plan_handover : PlanResult → ServiceInfo → Option Real → Action Controller (Unit {0})
  unfolding handover_json store_handover the_user the_bts
  plan_handover plan service time_to_mig = do
    user ← the_user service
    if plan.next_bts == user.bts then skip else elim time_to_mig [
      | none ↦ skip
      | some t ↦
          if lt t (of_ℕ 2)
          then (do
            bts ← the_bts plan.next_bts
            modify λ c.
                let json : HandoverJson = handover_json bts (times t (of_ℕ 1000)) in
                start t (Callback.trigger_handover plan.user json)
                  (store_handover plan.user json c))
          else skip
    ]

  -- The body of the loop of run_optimization_planner for a service that is not being moved.
  pub start_plan :
      PlanResult
      → ServiceInfo
      → (time_to_pre_mig time_to_mig : Option Real) → Action Controller (Unit {0})
  unfolding plan_migration plan_handover
  start_plan plan service time_to_pre_mig time_to_mig c =
      if plan.next_server == service.server_name
      then plan_handover plan service time_to_mig c
      else elim (get_json c.db service) [
        | none ↦ (return tt, c)
        | some json ↦ plan_migration plan service json time_to_pre_mig time_to_mig c
      ]

  module _ (forecast : Forecast) where
    -- One round of the loop of run_optimization_planner; `false` leaves the loop.
    optimize_round : PlanResult → Action Controller Bool
    unfolding start_plan
    optimize_round plan = do
      service ← λ c. needed attribute_error (get_service c.db plan.user) c
      time_to_pre_mig ←
          λ c. (lifetime_to_pre_mig forecast c.db plan.user plan.next_server plan.next_bts, c)
      time_to_mig ← λ c. (lifetime_to_mig forecast c.db plan.user plan.next_server plan.next_bts, c)
      λ c. elim (c.migration_state plan.user) [
        | none ↦ (return false, c)
        | some m_state ↦
            if is_migrating m_state
            then (return true, c)
            else (start_plan plan service time_to_pre_mig time_to_mig >> pure true) c
      ]

    optimize_rounds : List PlanResult → Action Controller (Unit {0})
    unfolding optimize_round
    optimize_rounds [] = skip
    optimize_rounds (plan ∷ rest) =
        optimize_round plan >>= λ go. if go then optimize_rounds rest else skip

    unfoldable pub run_optimization_planner : ComputePlan → Action Controller (Unit {0})
    unfolding optimize_rounds
    run_optimization_planner compute_plan = do
      migrate_plans ← λ c. (compute_plan c.db, c)
      optimize_rounds migrate_plans

  -- service.state in ['init', 'pre_migrate', 'pre_migrated', 'migrate']
  abbrev pub is_ongoing : String → Bool
  is_ongoing state =
      state == "init" || state == "pre_migrate" || state == "pre_migrated" || state == "migrate"

  -- The handover of trigger_other_planners, which starts at once.
  pub hand_over_now : PlanResult → Action Controller (Unit {0})
  unfolding handover_json store_handover add_bits the_bts
  hand_over_now plan = do
    bts ← the_bts plan.next_bts
    modify λ c.
        let json : HandoverJson = handover_json bts (of_ℕ 0) in
        add_bits plan.user handover_state
          (trigger_handover plan.user json (store_handover plan.user json c))

  -- The migration of trigger_other_planners, which follows its pre-migration at once.
  pub migrate_now : PlanResult → ServiceInfo → Controller → Controller
  unfolding moved_json store_migration add_bits
  migrate_now plan service c =
      if is_ongoing service.state
      then c
      else let marked : Controller =
          add_bits plan.user pre_migrate_state
            (record c { db = set_state service "pre_migrate" c.db }) in
        elim (get_json marked.db service) [
          | none ↦ marked
          | some json ↦
              let moved : ServiceJson = moved_json marked.db plan json in
              trigger_migration plan service.server_name moved (
                store_migration plan moved (publish (pre_migrate service.server_name moved) marked))
        ]

  -- One round of the loop of trigger_other_planners; `false` leaves the loop.
  other_round : PlanResult → Action Controller Bool
  unfolding hand_over_now migrate_now the_user
  other_round plan = do
    service ← λ c. needed attribute_error (get_service c.db plan.user) c
    λ c. elim (c.migration_state plan.user) [
      | none ↦ (return false, c)
      | some m_state ↦
          (do
            user ← the_user service
            if plan.next_bts == user.bts then skip else hand_over_now plan
            if plan.next_server == service.server_name
                then skip
                else modify (migrate_now plan service)
            pure true)
            c
    ]

  other_rounds : List PlanResult → Action Controller (Unit {0})
  unfolding other_round
  other_rounds [] = skip
  other_rounds (plan ∷ rest) = other_round plan >>= λ go. if go then other_rounds rest else skip

  unfoldable pub trigger_other_planners : ComputePlan → Action Controller (Unit {0})
  unfolding other_rounds
  trigger_other_planners compute_plan = do
    migrate_plans ← λ c. (compute_plan c.db, c)
    other_rounds migrate_plans
