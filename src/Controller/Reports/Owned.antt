-- ===== src/Controller/Reports/Owned.antt =====
-- The plans that the controller stores (`is_owned`), over the reports of servers and users
-- (centralized_controller.py).
use mec_measurements.Prelude.{
  String, true, Option, none, some, ◌≡◌, arith, eq_iff, Bool-cases, Option-cases, inl, inr,
}
use mec_measurements.Platform.{Platform, Real}
use mec_measurements.Effects.{Result, return, raise}
use mec_measurements.Edge.MigrateNode.{MigrateNode}
use mec_measurements.Database.Rows.{ServiceInfo}
use mec_measurements.Database.Queries.{ServiceJson, get_service}
use mec_measurements.Database.Updates.{set_state}
use mec_measurements.Planner.Lifetime.{Forecast, lifetime_to_mig}
use mec_measurements.Controller.Word.{
  meets, handover_state, migrate_state, Word, pre_migrated_state, ◌∪◌,
}
use mec_measurements.Controller.State.{Controller, set_word}
use mec_measurements.Controller.Plans.Owned.{is_owned, trigger_migration-is_owned}
use mec_measurements.Controller.Reports.{
  is_optimized, leads_to, migrate_stored, keep_running, schedule_handover, schedule_migration,
  prepare_move, pre_migrated_optimized, process_pre_migrated, process_migrated, process_handovered,
  process_allocated,
}

module _ ⦃p : Platform⦄ (u : String) where
  open p use {of_ℕ, lt}

  set_word-is_owned :
      (user : String) (m : Word) (c : Controller)
      → is_owned u c ≡ true
      → is_owned u (set_word user m c) ≡ true
  set_word-is_owned user m c h = ground (arith, eq_iff user u)

  migrate_stored-is_owned :
      (json : ServiceJson) (service : ServiceInfo) (c : Controller)
      → is_owned u c ≡ true
      → is_owned u (migrate_stored json service c) ≡ true
  unfolding migrate_stored
  migrate_stored-is_owned json service c h = elim (Option-cases (c.migrating_plan json.end_user)) [
    | inl e ↦ rw (migrate_stored, e) h
    | inr (stored, e) ↦ elim (Bool-cases (leads_to stored.plan json)) [
      | inl same ↦
          rw (migrate_stored, e, same)
            (trigger_migration-is_owned u service.server_name stored.plan stored.service c h)
      | inr other ↦ rw (migrate_stored, e, other) h
    ]
  ]

  keep_running-is_owned :
      (end_user : String) (service : ServiceInfo) (c : Controller)
      → is_owned u c ≡ true
      → is_owned u (keep_running end_user service c) ≡ true
  unfolding keep_running
  keep_running-is_owned end_user service c h = ground (arith, eq_iff end_user u)

  schedule_handover-is_owned :
      (end_user : String) (t : Real) (c : Controller)
      → is_owned u c ≡ true
      → is_owned u (schedule_handover end_user t c) ≡ true
  unfolding schedule_handover
  schedule_handover-is_owned end_user t c h = ground (arith, eq_iff end_user u)

  schedule_migration-is_owned :
      (json : ServiceJson) (service : ServiceInfo) (t : Real) (c : Controller)
      → is_owned u c ≡ true
      → is_owned u (schedule_migration json service t c) ≡ true
  unfolding schedule_migration
  schedule_migration-is_owned json service t c h = ground arith

  pub process_migrated-is_owned :
      (node : MigrateNode) (c : Controller)
      → is_owned u c ≡ true
      → is_owned u (process_migrated node c) ≡ true
  unfolding process_migrated
  process_migrated-is_owned node c h = ground (arith, eq_iff node.end_user u)

  pub process_handovered-is_owned :
      (end_user ssid bssid : String) (c : Controller)
      → is_owned u c ≡ true
      → is_owned u (process_handovered end_user ssid bssid c).1 ≡ true
  unfolding process_handovered
  process_handovered-is_owned end_user ssid bssid c h = ground (arith, eq_iff end_user u)

  pub process_allocated-is_owned :
      (node : MigrateNode) (c : Controller)
      → is_owned u c ≡ true
      → is_owned u (process_allocated node c).1 ≡ true
  unfolding process_allocated
  process_allocated-is_owned node c h = ground (arith, eq_iff node.end_user u)

  prepare_move-is_owned :
      (json : ServiceJson) (service : ServiceInfo) (m_state : Word) (t : Real) (c : Controller)
      → is_owned u c ≡ true
      → is_owned u (prepare_move json service m_state t c) ≡ true
  unfolding prepare_move
  prepare_move-is_owned json service m_state t c h =
      let scheduled = schedule_handover-is_owned json.end_user t c h in
      elim (Bool-cases (lt (of_ℕ 200) t)) [
        | inl far ↦ rw far (keep_running-is_owned json.end_user service c h)
        | inr near ↦ elim (Bool-cases (meets m_state handover_state)) [
          | inl over ↦ elim (Bool-cases (meets m_state migrate_state)) [
            | inl moving ↦ rw (near, over, moving) h
            | inr still ↦ rw (near, over, still) (schedule_migration-is_owned json service t c h)
          ]
          | inr waits ↦ elim (Bool-cases (meets m_state migrate_state)) [
            | inl moving ↦ rw (near, waits, moving) scheduled
            | inr still ↦
                rw (near, waits, still)
                  (schedule_migration-is_owned json service t (schedule_handover json.end_user t c)
                    scheduled)
          ]
        ]
      ]

  pre_migrated_optimized-is_owned :
      (forecast : Forecast) (json : ServiceJson) (service : ServiceInfo) (c : Controller)
      → is_owned u c ≡ true
      → is_owned u (pre_migrated_optimized forecast json service c).1 ≡ true
  unfolding pre_migrated_optimized
  pre_migrated_optimized-is_owned forecast json service c h =
      elim (Option-cases (c.migration_state json.end_user)) [
        | inl e ↦ rw (pre_migrated_optimized, e) h
        | inr (m_state, e) ↦
            let marked : Controller = set_word json.end_user (m_state ∪ pre_migrated_state) c in
            rw (pre_migrated_optimized, e)
              (after (lifetime_to_mig forecast marked.db json.end_user json.server_name json.ssid)
                json service m_state marked
                (set_word-is_owned json.end_user (m_state ∪ pre_migrated_state) c h))
      ]
    where
      after :
          (r : Result (Option Real)) (json : ServiceJson) (service : ServiceInfo) (m_state : Word)
          (d : Controller)
          → is_owned u d ≡ true
          → is_owned u
              (elim r as (λ _. Result (Unit {0}) × Controller) [
                | raise e ↦ (raise e, d)
                | return none ↦ (return tt, d)
                | return (some t) ↦ (return tt, prepare_move json service m_state t d)
              ]).1
            ≡ true
      after (raise e) json service m_state d k = k
      after (return none) json service m_state d k = k
      after (return (some t)) json service m_state d k =
          prepare_move-is_owned json service m_state t d k

  pub process_pre_migrated-is_owned :
      (forecast : Forecast) (json : ServiceJson) (c : Controller)
      → is_owned u c ≡ true
      → is_owned u (process_pre_migrated forecast json c).1 ≡ true
  unfolding process_pre_migrated
  process_pre_migrated-is_owned forecast json c h =
      elim (Option-cases (get_service c.db json.end_user)) [
        | inl e ↦ rw (process_pre_migrated, e) h
        | inr (service, e) ↦
            let marked : Controller = record c { db = set_state service "pre_migrated" c.db } in
            elim (Bool-cases (is_optimized c.planner_type)) [
              | inl optimizing ↦
                  rw (process_pre_migrated, e, optimizing)
                    (pre_migrated_optimized-is_owned forecast json service marked h)
              | inr other ↦
                  rw (process_pre_migrated, e, other)
                    (migrate_stored-is_owned json service marked h)
            ]
      ]
