-- ===== src/Controller/Reports.antt =====
-- The reports of edge servers and users that end a step of a migration (centralized_controller.py).
-- A handler takes the decoded payload: a text that is no YAML is logged and changes nothing.
pub mod Owned
pub mod Far
pub mod Frame
use mec_measurements.Prelude.{
  String, Bool, true, false, none, some, ◌==◌, ◌&&◌, is_some, if◌then◌else◌,
}
use mec_measurements.Prelude.Dict.{put}
use mec_measurements.Platform.{Platform, Real}
use mec_measurements.Effects.{return, raise, Action, modify, ◌>>◌}
use mec_measurements.Edge.MigrateNode.{MigrateNode}
use mec_measurements.Database.Rows.{ServiceInfo, DbCentral}
use mec_measurements.Database.Queries.{ServiceJson, get_service}
use mec_measurements.Database.Updates.{
  set_state, update_service, register_service, update_end_user_info,
}
use mec_measurements.Planner.Lifetime.{Forecast, lifetime_to_mig}
use mec_measurements.Controller.Word.{
  Word, running_state, pre_migrate_state, pre_migrated_state, migrate_state, handover_state,
  handovered_state, ◌∪◌, meets, is_running,
}
use mec_measurements.Controller.State.{
  PlanResult, optimized, PlanType, HandoverJson, Controller, Callback, start, set_word,
  drop_migrating, drop_handover,
}
use mec_measurements.Controller.Triggers.{trigger_migration}

module _ ⦃p : Platform⦄ where
  open p use {of_ℕ, tenth, plus, times, lt}

  -- A method of the database.
  abbrev pub on_db : {A : Type 0} → Action DbCentral A → Action Controller A
  on_db m c = let (r, db) = m c.db in (r, record c { db = db })

  -- self.planner_type != Constants.OPTIMIZED_PLAN
  abbrev pub is_optimized : PlanType → Bool
  is_optimized optimized = true
  is_optimized _ = false

  -- plan.next_server == dest_server and plan.next_bts == dest_bts
  abbrev pub leads_to : PlanResult → ServiceJson → Bool
  leads_to plan json = plan.next_server == json.server_name && plan.next_bts == json.ssid

  -- The stored migration starts at once, if it is the one that was prepared.
  migrate_stored : ServiceJson → ServiceInfo → Controller → Controller
  migrate_stored json service c = elim (c.migrating_plan json.end_user) [
    | none ↦ c
    | some stored ↦
        if leads_to stored.plan json
        then trigger_migration stored.plan service.server_name stored.service c
        else c
  ]

  -- Keep running in the same old server.
  pub keep_running : String → ServiceInfo → Controller → Controller
  keep_running end_user service c = drop_migrating end_user (
      drop_handover end_user
        (set_word end_user running_state (record c { db = set_state service "running" c.db })))

  -- The handover that was not triggered: its JSON object, which the plan holds too, gets the time.
  schedule_handover : String → Real → Controller → Controller
  schedule_handover end_user lifetime_to_mig c = elim (c.handover_plan end_user) [
    | none ↦ c
    | some stored ↦
        let late = lt (of_ℕ 0) lifetime_to_mig in
        let json : HandoverJson = record stored {
          elapsed_time = if late then times lifetime_to_mig (of_ℕ 1000) else of_ℕ 0;
        } in
        start (if late then plus lifetime_to_mig tenth else tenth)
          (Callback.trigger_handover end_user json)
          (record c { handover_plan = put c.handover_plan end_user json })
  ]

  schedule_migration : ServiceJson → ServiceInfo → Real → Controller → Controller
  schedule_migration json service lifetime_to_mig c = elim (c.migrating_plan json.end_user) [
    | none ↦ c
    | some stored ↦
        if leads_to stored.plan json
        then start lifetime_to_mig
            (Callback.trigger_migration stored.plan service.server_name stored.service) c
        else c
  ]

  -- What follows the lifetime, for the word `m_state` that was read before.
  prepare_move : ServiceJson → ServiceInfo → Word → Real → Controller → Controller
  unfolding keep_running schedule_handover schedule_migration
  prepare_move json service m_state lifetime_to_mig c =
      if lt (of_ℕ 200) lifetime_to_mig
      then keep_running json.end_user service c
      else let with_handover : Controller =
          if meets m_state handover_state
          then c
          else schedule_handover json.end_user lifetime_to_mig c in
        if meets m_state migrate_state
        then with_handover
        else schedule_migration json service lifetime_to_mig with_handover

  module _ (forecast : Forecast) where
    -- The branch of the optimizing planner.
    pre_migrated_optimized : ServiceJson → ServiceInfo → Action Controller (Unit {0})
    unfolding prepare_move
    pre_migrated_optimized json service c = elim (c.migration_state json.end_user) [
      | none ↦ (return tt, c)
      | some m_state ↦
          let marked : Controller = set_word json.end_user (m_state ∪ pre_migrated_state) c in
          elim (lifetime_to_mig forecast marked.db json.end_user json.server_name json.ssid) [
            | raise e ↦ (raise e, marked)
            | return none ↦ (return tt, marked)
            | return (some t) ↦ (return tt, prepare_move json service m_state t marked)
          ]
    ]

    unfoldable pub process_pre_migrated : ServiceJson → Action Controller (Unit {0})
    unfolding migrate_stored pre_migrated_optimized
    process_pre_migrated json c = elim (get_service c.db json.end_user) [
      | none ↦ (return tt, c)
      | some service ↦
          let marked : Controller = record c { db = set_state service "pre_migrated" c.db } in
          if is_optimized c.planner_type
          then pre_migrated_optimized json service marked
          else (return tt, migrate_stored json service marked)
    ]

  unfoldable pub process_migrated : MigrateNode → Controller → Controller
  process_migrated node c =
      let stored : Controller = record c { db = update_service node "running" c.db } in
      elim (c.migration_state node.end_user) [
        | none ↦ stored
        | some m_state ↦ set_word node.end_user running_state stored
      ]

  -- The word after a handover: `running` again, unless a pre-migration is under way.
  abbrev pub after_handover : Word → Word
  after_handover m_state =
      if is_running m_state
      then m_state
      else if meets m_state pre_migrate_state
      then m_state ∪ handovered_state
      else running_state

  unfoldable pub process_handovered : String → String → String → Action Controller (Unit {0})
  process_handovered end_user ssid bssid = do
    on_db (update_end_user_info end_user ssid bssid)
    modify λ c. elim (c.migration_state end_user) [
      | none ↦ c
      | some m_state ↦ set_word end_user (after_handover m_state) c
    ]

  unfoldable pub process_allocated : MigrateNode → Action Controller (Unit {0})
  process_allocated node c =
      let marked : Controller = set_word node.end_user running_state c in
      if is_some (get_service c.db node.end_user)
      then (return tt, record marked { db = update_service node "running" c.db })
      else on_db (register_service node "running") marked
