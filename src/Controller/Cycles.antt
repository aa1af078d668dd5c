-- ===== src/Controller/Cycles.antt =====
-- Whole episodes of the controller, over several of its handlers (centralized_controller.py): a
-- handover, a migration, and a move that is given up.
use mathlib.Core.List.{append_assoc}
use mec_measurements.Prelude.{
  String, true, none, some, List, [], ◌∷◌, ◌++◌, ◌≡◌, refl, ap, ◌∙◌, eq_iff, arith, All,
}
use mec_measurements.Platform.{Platform, Real}
use mec_measurements.Effects.{return}
use mec_measurements.Edge.MigrateNode.{MigrateNode}
use mec_measurements.Database.Rows.{ServiceInfo}
use mec_measurements.Database.Queries.{ServiceJson, get_service}
use mec_measurements.Database.Updates.{set_state, update_end_user_info}
use mec_measurements.Planner.Lifetime.{Forecast, lifetime_to_mig}
use mec_measurements.Controller.Word.{Word, running_state, pre_migrate_state, migrate_state, ◌∪◌}
use mec_measurements.Controller.State.{
  publish, set_word, drop_migrating, PlanResult, HandoverJson, Controller, Callback, handover,
  pre_migrate, migrate, optimized,
}
use mec_measurements.Controller.Triggers.{
  trigger_handover, trigger_pre_migration, trigger_migration, fire,
}
use mec_measurements.Controller.Reports.{
  process_migrated, process_handovered, process_pre_migrated, keep_running,
}
use mec_measurements.Controller.Reports.Far.{prepared, process_pre_migrated-far, keep_running-eq}

module _ ⦃p : Platform⦄ where
  open p use {of_ℕ, lt}

  -- A running user with a stored handover who is told to hand over, and whose report the database
  -- takes, is running again; the handover was sent, and its plan is gone.
  pub handover_cycle :
      (u ssid bssid : String) (json stored : HandoverJson) (c : Controller)
      → c.migration_state u ≡ some running_state
      → c.handover_plan u ≡ some stored
      → (update_end_user_info u ssid bssid c.db).0 ≡ return tt
      → (d : Controller) × (process_handovered u ssid bssid (trigger_handover u json c)
          ≡ (return tt, d))
        × (d.migration_state u ≡ some running_state)
        × (d.handover_plan u ≡ none)
        × (d.published ≡ c.published ++ handover u json ∷ [])
  unfolding process_handovered trigger_handover
  handover_cycle u ssid bssid json stored c running plan updates =
      let d = (process_handovered u ssid bssid (trigger_handover u json c)).1 in
      (
        d,
        ground (arith, eq_iff u u),
        ground (arith, eq_iff u u),
        ground (arith, eq_iff u u),
        ground (arith, eq_iff u u),
      )

  -- The two steps of a migration, on a running user.
  trigger_pre_migration-running :
      (u server : String) (json : ServiceJson) (c : Controller)
      → json.end_user ≡ u
      → c.migration_state u ≡ some running_state
      → trigger_pre_migration server json c
        ≡ publish (pre_migrate server json) (set_word u (running_state ∪ pre_migrate_state) c)
  unfolding trigger_pre_migration
  trigger_pre_migration-running u server json c same running = ground arith

  trigger_migration-prepared :
      (u server : String) (json : ServiceJson) (plan : PlanResult) (c : Controller)
      → plan.user ≡ u
      → c.migration_state u ≡ some (running_state ∪ pre_migrate_state)
      → trigger_migration plan server json c
        ≡ drop_migrating u (
            publish
              (migrate server json)
              (set_word u (running_state ∪ pre_migrate_state ∪ migrate_state) c))
  unfolding trigger_migration
  trigger_migration-prepared u server json plan c same prepared = ground arith

  process_migrated-published :
      (node : MigrateNode) (c : Controller) → (process_migrated node c).published ≡ c.published
  unfolding process_migrated
  process_migrated-published node c = ground arith

  -- A running user whose service is pre-migrated, then migrated, and then reported as migrated, is
  -- running again; the two messages were sent in this order, and the stored migration is gone.
  pub migration_cycle :
      (u server : String) (json : ServiceJson) (plan : PlanResult) (node : MigrateNode)
      (c : Controller)
      → json.end_user ≡ u
      → plan.user ≡ u
      → node.end_user ≡ u
      → c.migration_state u ≡ some running_state
      → (d : Controller) × (process_migrated node
            (trigger_migration plan server json (trigger_pre_migration server json c))
          ≡ d)
        × (d.migration_state u ≡ some running_state)
        × (d.migrating_plan u ≡ none)
        × (d.published ≡ c.published ++ pre_migrate server json ∷ migrate server json ∷ [])
  unfolding process_migrated
  migration_cycle u server json plan node c service_of_u plan_of_u node_of_u running =
      let prepared =
        publish (pre_migrate server json) (set_word u (running_state ∪ pre_migrate_state) c) in
      let moved = drop_migrating u (
        publish (migrate server json)
          (set_word u (running_state ∪ pre_migrate_state ∪ migrate_state) prepared)) in
      let e : trigger_migration plan server json (trigger_pre_migration server json c) ≡ moved =
        rw (trigger_pre_migration-running u server json c service_of_u running) (
          trigger_migration-prepared u server json plan prepared plan_of_u
            (ground (arith, eq_iff u u))) in
      (
        process_migrated node moved,
        rw e refl,
        ground (arith, eq_iff u u),
        ground (arith, eq_iff u u),
        process_migrated-published node moved
            ∙ append_assoc c.published (pre_migrate server json ∷ []) (migrate server json ∷ []),
      )

  -- The timers of a user's handover and migration.
  abbrev pub MovesUser : String → Callback → Type 0
  MovesUser u (Callback.trigger_handover user json) = user ≡ u
  MovesUser u (Callback.trigger_migration plan server json) = plan.user ≡ u
  MovesUser u (Callback.trigger_pre_migration server json) = ⊥

  -- The timers fire, in the given order.
  unfoldable pub fire_all : List Callback → Controller → Controller
  fire_all [] c = c
  fire_all (call ∷ rest) c = fire_all rest (fire call c)

  trigger_handover-given_up :
      (u user : String) (json : HandoverJson) (c : Controller)
      → user ≡ u
      → c.handover_plan u ≡ none
      → trigger_handover user json c ≡ c
  unfolding trigger_handover
  trigger_handover-given_up u user json c same none_stored = ground arith

  trigger_migration-given_up :
      (u server : String) (plan : PlanResult) (json : ServiceJson) (c : Controller)
      → plan.user ≡ u
      → c.migration_state u ≡ some running_state
      → trigger_migration plan server json c ≡ drop_migrating u c
  unfolding trigger_migration
  trigger_migration-given_up u server plan json c same running = ground arith

  fire_all-given_up :
      (u : String) (calls : List Callback) (c : Controller)
      → All (MovesUser u) calls
      → c.migration_state u ≡ some running_state
      → c.handover_plan u ≡ none
      → (fire_all calls c).published ≡ c.published
  unfolding fire_all fire trigger_handover trigger_migration
  fire_all-given_up u [] c moves running none_stored = refl
  fire_all-given_up u (Callback.trigger_handover user json ∷ rest) c moves running none_stored =
      ap (λ d. (fire_all rest d).published)
        (trigger_handover-given_up u user json c moves.0 none_stored)
      ∙ (fire_all-given_up u rest c moves.1 running none_stored)
  fire_all-given_up u (Callback.trigger_migration plan server json ∷ rest) c moves running
        none_stored =
      ap (λ d. (fire_all rest d).published)
        (trigger_migration-given_up u server plan json c moves.0 running)
      ∙ (fire_all-given_up u rest (drop_migrating u c) moves.1 running none_stored)
  fire_all-given_up u (Callback.trigger_pre_migration server json ∷ rest) c moves running
        none_stored =
      absurd moves.0

  -- An optimizing controller that learns of a pre-migration whose migration is more than 200 seconds
  -- away gives the move up: timers of the user's handovers and migrations that then fire, in whatever
  -- number and order, but with no other handler between them, send no message.
  pub process_pre_migrated-gives_up :
      (forecast : Forecast) (json : ServiceJson) (service : ServiceInfo) (m_state : Word) (t : Real)
      (calls : List Callback) (c : Controller)
      → get_service c.db json.end_user ≡ some service
      → c.planner_type ≡ optimized
      → c.migration_state json.end_user ≡ some m_state
      → lifetime_to_mig forecast
          (set_state service "pre_migrated" c.db)
          json.end_user
          json.server_name
          json.ssid
        ≡ return (some t)
      → lt (of_ℕ 200) t ≡ true
      → All (MovesUser json.end_user) calls
      → (fire_all calls (process_pre_migrated forecast json c).1).published ≡ c.published
  process_pre_migrated-gives_up forecast json service m_state t calls c found optimizing word time
        far moves =
      let d = keep_running json.end_user service (prepared json service m_state c) in
      let e =
        process_pre_migrated-far forecast json service m_state t c found optimizing word time far in
      let (running, none_stored, quiet) =
        keep_running-eq json.end_user service (prepared json service m_state c) in
      rw (ap (λ r. r.1) e)
        (fire_all-given_up json.end_user calls d moves running none_stored ∙ quiet)
