-- ===== src/Controller/Reports/Frame.antt =====
-- The reports of centralized_controller.py are about one user and leave the others alone.
use mec_measurements.Prelude.{
  String, false, Option, none, some, ◌≡◌, refl, ◌∙◌, ◌==◌, arith, eq_iff, Bool-cases, Option-cases,
  inl, inr,
}
use mec_measurements.Platform.{Platform, Real}
use mec_measurements.Effects.{Result, return, raise}
use mec_measurements.Edge.MigrateNode.{MigrateNode}
use mec_measurements.Database.Rows.{ServiceInfo}
use mec_measurements.Database.Queries.{ServiceJson, get_service}
use mec_measurements.Database.Updates.{set_state}
use mec_measurements.Planner.Lifetime.{Forecast, lifetime_to_mig}
use mec_measurements.Controller.Word.{Word, pre_migrated_state, ◌∪◌}
use mec_measurements.Controller.State.{Stored, PlanResult, Controller, set_word}
use mec_measurements.Controller.Triggers.{trigger_migration}
use mec_measurements.Controller.Reports.{
  is_optimized, leads_to, migrate_stored, keep_running, schedule_handover, schedule_migration,
  prepare_move, pre_migrated_optimized, process_pre_migrated, process_migrated, process_handovered,
  process_allocated,
}

module _ ⦃p : Platform⦄ where
  -- What the controller keeps of a user is as it was.
  pub record IsSame (v : String) (before after : Controller) : Type 0 where
    pub migration_state : after.migration_state v ≡ before.migration_state v
    pub migrating_plan : after.migrating_plan v ≡ before.migrating_plan v
    pub handover_plan : after.handover_plan v ≡ before.handover_plan v

  IsSame-refl : {v : String} (c : Controller) → IsSame v c c
  IsSame-refl c = record { migration_state = refl; migrating_plan = refl; handover_plan = refl }

  IsSame-trans : {v : String} (a b c : Controller) → IsSame v a b → IsSame v b c → IsSame v a c
  IsSame-trans a b c first later = record {
    migration_state = later.migration_state ∙ first.migration_state;
    migrating_plan = later.migrating_plan ∙ first.migrating_plan;
    handover_plan = later.handover_plan ∙ first.handover_plan;
  }

  module _ (u v : String) (apart : (u == v) ≡ false) where
    keep_running-IsSame :
        (service : ServiceInfo) (c : Controller) → IsSame v c (keep_running u service c)
    unfolding keep_running
    keep_running-IsSame service c = record {
      migration_state = ground (arith, eq_iff u v);
      migrating_plan = ground (arith, eq_iff u v);
      handover_plan = ground (arith, eq_iff u v);
    }

    prepare_move-IsSame :
        (json : ServiceJson) (service : ServiceInfo) (m_state : Word) (t : Real) (c : Controller)
        → json.end_user ≡ u
        → IsSame v c (prepare_move json service m_state t c)
    unfolding prepare_move schedule_handover schedule_migration keep_running
    prepare_move-IsSame json service m_state t c same = record {
      migration_state = ground (arith, eq_iff u v, eq_iff json.end_user v);
      migrating_plan = ground (arith, eq_iff u v, eq_iff json.end_user v);
      handover_plan = ground (arith, eq_iff u v, eq_iff json.end_user v);
    }

    process_migrated-IsSame :
        (node : MigrateNode) (c : Controller)
        → node.end_user ≡ u
        → IsSame v c (process_migrated node c)
    unfolding process_migrated
    process_migrated-IsSame node c same = record {
      migration_state = ground (arith, eq_iff node.end_user v);
      migrating_plan = ground (arith, eq_iff node.end_user v);
      handover_plan = ground (arith, eq_iff node.end_user v);
    }

    process_allocated-IsSame :
        (node : MigrateNode) (c : Controller)
        → node.end_user ≡ u
        → IsSame v c (process_allocated node c).1
    unfolding process_allocated
    process_allocated-IsSame node c same = record {
      migration_state = ground (arith, eq_iff node.end_user v);
      migrating_plan = ground (arith, eq_iff node.end_user v);
      handover_plan = ground (arith, eq_iff node.end_user v);
    }

    process_handovered-IsSame :
        (ssid bssid : String) (c : Controller) → IsSame v c (process_handovered u ssid bssid c).1
    unfolding process_handovered
    process_handovered-IsSame ssid bssid c = record {
      migration_state = ground (arith, eq_iff u v);
      migrating_plan = ground (arith, eq_iff u v);
      handover_plan = ground (arith, eq_iff u v);
    }

    trigger_migration-IsSame :
        (server : String) (plan : PlanResult) (json : ServiceJson) (c : Controller)
        → plan.user ≡ u
        → IsSame v c (trigger_migration plan server json c)
    unfolding trigger_migration
    trigger_migration-IsSame server plan json c same = record {
      migration_state = ground (arith, eq_iff plan.user v);
      migrating_plan = ground (arith, eq_iff plan.user v);
      handover_plan = ground (arith, eq_iff plan.user v);
    }

    set_word-IsSame :
        (user : String) (m : Word) (c : Controller) → user ≡ u → IsSame v c (set_word user m c)
    set_word-IsSame user m c same = record {
      migration_state = ground (arith, eq_iff user v);
      migrating_plan = refl;
      handover_plan = refl;
    }

    migrate_stored-IsSame :
        (json : ServiceJson) (service : ServiceInfo) (c : Controller)
        → json.end_user ≡ u
        → ((s : Stored) → c.migrating_plan u ≡ some s → s.plan.user ≡ u)
        → IsSame v c (migrate_stored json service c)
    unfolding migrate_stored
    migrate_stored-IsSame json service c same own =
        elim (Option-cases (c.migrating_plan json.end_user)) [
          | inl e ↦ rw (migrate_stored, e) (IsSame-refl c)
          | inr (stored, e) ↦ elim (Bool-cases (leads_to stored.plan json)) [
            | inr other ↦ rw (migrate_stored, e, other) (IsSame-refl c)
            | inl leads ↦
                rw (migrate_stored, e, leads)
                  (trigger_migration-IsSame service.server_name stored.plan stored.service c
                    (own stored (rw same at e)))
          ]
        ]

    pre_migrated_optimized-IsSame :
        (forecast : Forecast) (json : ServiceJson) (service : ServiceInfo) (c : Controller)
        → json.end_user ≡ u
        → IsSame v c (pre_migrated_optimized forecast json service c).1
    unfolding pre_migrated_optimized
    pre_migrated_optimized-IsSame forecast json service c same =
        elim (Option-cases (c.migration_state json.end_user)) [
          | inl e ↦ rw (pre_migrated_optimized, e) (IsSame-refl c)
          | inr (m_state, e) ↦
              let marked : Controller = set_word json.end_user (m_state ∪ pre_migrated_state) c in
              rw (pre_migrated_optimized, e)
                (after (lifetime_to_mig forecast marked.db json.end_user json.server_name json.ssid)
                  marked (λ t. prepare_move json service m_state t marked)
                  (set_word-IsSame json.end_user (m_state ∪ pre_migrated_state) c same)
                  (λ t.
                    IsSame-trans c marked (prepare_move json service m_state t marked)
                      (set_word-IsSame json.end_user (m_state ∪ pre_migrated_state) c same)
                      (prepare_move-IsSame json service m_state t marked same)))
        ]
      where
        after :
            (r : Result (Option Real)) (d : Controller) (next : Real → Controller)
            → IsSame v c d
            → ((t : Real) → IsSame v c (next t))
            → IsSame v c
                (elim r as (λ _. Result (Unit {0}) × Controller) [
                  | raise e ↦ (raise e, d)
                  | return none ↦ (return tt, d)
                  | return (some t) ↦ (return tt, next t)
                ]).1
        after (raise e) d next k l = k
        after (return none) d next k l = k
        after (return (some t)) d next k l = l t

    process_pre_migrated-IsSame :
        (forecast : Forecast) (json : ServiceJson) (c : Controller)
        → json.end_user ≡ u
        → ((s : Stored) → c.migrating_plan u ≡ some s → s.plan.user ≡ u)
        → IsSame v c (process_pre_migrated forecast json c).1
    unfolding process_pre_migrated
    process_pre_migrated-IsSame forecast json c same own =
        elim (Option-cases (get_service c.db json.end_user)) [
          | inl e ↦ rw (process_pre_migrated, e) (IsSame-refl c)
          | inr (service, e) ↦
              let marked : Controller = record c { db = set_state service "pre_migrated" c.db } in
              let quiet : IsSame v c marked = record {
                migration_state = refl;
                migrating_plan = refl;
                handover_plan = refl;
              } in
              elim (Bool-cases (is_optimized c.planner_type)) [
                | inl o ↦
                    rw (process_pre_migrated, e, o)
                      (IsSame-trans c marked (pre_migrated_optimized forecast json service marked).1
                        quiet (pre_migrated_optimized-IsSame forecast json service marked same))
                | inr o ↦
                    rw (process_pre_migrated, e, o)
                      (IsSame-trans c marked (migrate_stored json service marked) quiet
                        (migrate_stored-IsSame json service marked same own))
              ]
        ]

  -- The four reports about a user change neither the word nor the stored plans of another user, on
  -- every path and also where they raise, if the migration that is stored for the user is the user's.
  pub reports-IsSame :
      (forecast : Forecast) (u v ssid bssid : String) (json : ServiceJson) (node : MigrateNode)
      (c : Controller)
      → (u == v) ≡ false
      → json.end_user ≡ u
      → node.end_user ≡ u
      → ((s : Stored) → c.migrating_plan u ≡ some s → s.plan.user ≡ u)
      → IsSame v c (process_pre_migrated forecast json c).1
        × IsSame v c (process_migrated node c)
        × IsSame v c (process_handovered u ssid bssid c).1
        × IsSame v c (process_allocated node c).1
  reports-IsSame forecast u v ssid bssid json node c apart json_of_u node_of_u own = (
    process_pre_migrated-IsSame u v apart forecast json c json_of_u own,
    process_migrated-IsSame u v apart node c node_of_u,
    process_handovered-IsSame u v apart ssid bssid c,
    process_allocated-IsSame u v apart node c node_of_u,
  )
