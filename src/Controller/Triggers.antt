-- ===== src/Controller/Triggers.antt =====
-- The callbacks of centralized_controller.py that start a handover, a pre-migration or a migration.
pub mod Once
use mec_measurements.Prelude.{String, none, some, ◌||◌, if◌then◌else◌}
use mec_measurements.Platform.{Platform}
use mec_measurements.Database.Queries.{ServiceJson}
use mec_measurements.Controller.Word.{
  pre_migrate_state, migrate_state, handover_state, handovered_state, ◌∪◌, meets, is_running,
}
use mec_measurements.Controller.State.{
  PlanResult, HandoverJson, handover, pre_migrate, migrate, Controller, Callback, publish, set_word,
  drop_migrating, drop_handover,
}

module _ ⦃p : Platform⦄ where
  unfoldable pub trigger_handover : String → HandoverJson → Controller → Controller
  trigger_handover end_user handover_json c = elim (c.handover_plan end_user) [
    | none ↦ c
    | some stored ↦ elim (c.migration_state end_user) [
      | none ↦ c
      | some m_state ↦
          if meets m_state handover_state || meets m_state handovered_state
          then c
          else drop_handover end_user (
              publish (handover end_user handover_json)
                (set_word end_user (m_state ∪ handover_state) c))
    ]
  ]

  unfoldable pub trigger_pre_migration : String → ServiceJson → Controller → Controller
  trigger_pre_migration source_mig_server_name service_json c =
      elim (c.migration_state service_json.end_user) [
        | none ↦ c
        | some m_state ↦
            if meets m_state pre_migrate_state || meets m_state migrate_state
            then c
            else publish (pre_migrate source_mig_server_name service_json)
                (set_word service_json.end_user (m_state ∪ pre_migrate_state) c)
      ]

  unfoldable pub trigger_migration : PlanResult → String → ServiceJson → Controller → Controller
  trigger_migration plan source_server_name service_json c = elim (c.migration_state plan.user) [
    | none ↦ c
    | some m_state ↦
        if meets m_state migrate_state
        then c
        else if is_running m_state
        then drop_migrating plan.user c
        else drop_migrating plan.user (
            publish (migrate source_server_name service_json)
              (set_word plan.user (m_state ∪ migrate_state) c))
  ]

  -- A timer fires.
  unfoldable pub fire : Callback → Controller → Controller
  unfolding trigger_handover trigger_pre_migration trigger_migration
  fire (Callback.trigger_handover user json) c = trigger_handover user json c
  fire (Callback.trigger_pre_migration server json) c = trigger_pre_migration server json c
  fire (Callback.trigger_migration plan server json) c = trigger_migration plan server json c
