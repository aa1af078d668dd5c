-- ===== src/Controller/Reports/Far.antt =====
-- process_pre_migrated (centralized_controller.py) where the migration is far away.
use mec_measurements.Prelude.{String, ◌≡◌, refl, none, some, true, arith, eq_refl}
use mec_measurements.Platform.{Platform, Real}
use mec_measurements.Effects.{return}
use mec_measurements.Database.Rows.{ServiceInfo}
use mec_measurements.Database.Queries.{ServiceJson, get_service}
use mec_measurements.Database.Updates.{set_state}
use mec_measurements.Planner.Lifetime.{Forecast, lifetime_to_mig}
use mec_measurements.Controller.Word.{Word, running_state, pre_migrated_state, ◌∪◌}
use mec_measurements.Controller.State.{optimized, Controller, set_word}
use mec_measurements.Controller.Reports.{
  is_optimized, keep_running, prepare_move, pre_migrated_optimized, process_pre_migrated,
}

module _ ⦃p : Platform⦄ where
  open p use {of_ℕ, lt}

  abbrev pub prepared : ServiceJson → ServiceInfo → Word → Controller → Controller
  prepared json service m_state c =
      set_word json.end_user (m_state ∪ pre_migrated_state)
        (record c { db = set_state service "pre_migrated" c.db })

  pub keep_running-eq :
      (end_user : String) (service : ServiceInfo) (c : Controller)
      → ((keep_running end_user service c).migration_state end_user ≡ some running_state)
        × ((keep_running end_user service c).handover_plan end_user ≡ none)
        × ((keep_running end_user service c).published ≡ c.published)
  unfolding keep_running
  keep_running-eq end_user service c =
      (ground (arith, eq_refl end_user), ground (arith, eq_refl end_user), refl)

  prepare_move-far :
      (json : ServiceJson) (service : ServiceInfo) (m_state : Word) (t : Real) (c : Controller)
      → lt (of_ℕ 200) t ≡ true
      → prepare_move json service m_state t c ≡ keep_running json.end_user service c
  unfolding prepare_move
  prepare_move-far json service m_state t c far = rw (prepare_move, far) refl

  pre_migrated_optimized-far :
      (forecast : Forecast) (json : ServiceJson) (service : ServiceInfo) (m_state : Word) (t : Real)
      (c : Controller)
      → c.migration_state json.end_user ≡ some m_state
      → lifetime_to_mig forecast c.db json.end_user json.server_name json.ssid ≡ return (some t)
      → lt (of_ℕ 200) t ≡ true
      → pre_migrated_optimized forecast json service c ≡ (
        return tt,
        keep_running json.end_user service
            (set_word json.end_user (m_state ∪ pre_migrated_state) c),
      )
  unfolding pre_migrated_optimized
  pre_migrated_optimized-far forecast json service m_state t c word time far =
      rw
        (
          pre_migrated_optimized,
          word,
          time,
          prepare_move-far json service m_state t
              (set_word json.end_user (m_state ∪ pre_migrated_state) c) far,
        )
        refl

  pub process_pre_migrated-far :
      (forecast : Forecast) (json : ServiceJson) (service : ServiceInfo) (m_state : Word) (t : Real)
      (c : Controller)
      → get_service c.db json.end_user ≡ some service
      → c.planner_type ≡ optimized
      → c.migration_state json.end_user ≡ some m_state
      → lifetime_to_mig forecast
          (set_state service "pre_migrated" c.db)
          json.end_user
          json.server_name
          json.ssid
        ≡ return (some t)
      → lt (of_ℕ 200) t ≡ true
      → process_pre_migrated forecast json c
        ≡ (return tt, keep_running json.end_user service (prepared json service m_state c))
  unfolding process_pre_migrated
  process_pre_migrated-far forecast json service m_state t c found optimizing word time far =
      let optimizes : is_optimized c.planner_type ≡ true = rw optimizing refl in
      rw (process_pre_migrated, found, optimizes)
        (pre_migrated_optimized-far forecast json service m_state t
          (record c { db = set_state service "pre_migrated" c.db }) word time far)
