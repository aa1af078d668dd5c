-- ===== src/Planner/Lifetime.antt =====
-- MigrationPlanner of planner.py: how long a migration can wait. What it asks the database of the
-- next handover (get_handover_time) and of the neighbours (query_neighbor) is the interface
-- `Forecast`, which Database.Handover fills.
pub mod Bounds
use mec_measurements.Prelude.{
  String, Bool, false, Option, none, some, List, [], ◌∷◌, ◌==◌, if◌then◌else◌,
}
use mec_measurements.Platform.{Platform, Real, times_1_1}
use mec_measurements.Effects.{Result, return, raise, key_error}
use mec_measurements.Database.Estimate.{
  EstimateTime, get_est_pre_mig_time, get_est_mig_time, get_avg_est_pre_mig_time,
  get_max_est_pre_mig_time,
}
use mec_measurements.Database.Rows.{DbCentral}
use mec_measurements.Database.Queries.{query_cur_assign}

module _ ⦃p : Platform⦄ where
  open p use {of_ℕ, plus, minus, times, over, lt}

  -- db.query_neighbor(user, 10 * 10**6) as the names of the base stations, and
  -- db.get_handover_time(user, src, dst), with the hysteresis of the call
  pub record Forecast : Type 0 where
    pub query_neighbor : DbCentral → String → List String
    pub get_handover_time : DbCentral → String → String → String → Real → Result (Option Real)

  -- 1000 seconds, which is long enough
  abbrev pub long_enough : Real
  long_enough = of_ℕ 1000

  -- max(a, b)
  abbrev pub max_real : Real → Real → Real
  max_real a b = if lt a b then b else a

  -- self.est_time_users[user]
  abbrev estimates : DbCentral → String → Result EstimateTime
  estimates db user = elim (db.est_time_users user) [ none ↦ raise key_error | some e ↦ return e ]

  -- db.get_est_handover_time
  unfoldable pub get_est_handover_time : String → String → Real
  get_est_handover_time src_bs dst_bs = if src_bs == dst_bs then of_ℕ 0 else over (of_ℕ 5) (of_ℕ 10)

  -- db.get_est_mig_time(end_user, cur_server, dest_server), which looks at the servers first
  unfoldable pub db_get_est_mig_time :
      DbCentral → String → Option String → String → Result (Option Real)
  db_get_est_mig_time db user none dest = elim (db.est_time_users user) [
    | none ↦ raise key_error
    | some e ↦ return none
  ]
  db_get_est_mig_time db user (some source) dest =
      if source == dest then return (some (of_ℕ 0)) else elim (db.est_time_users user) [
        | none ↦ raise key_error
        | some e ↦ return (get_est_mig_time e source dest)
      ]

  db_get_est_pre_mig_time : DbCentral → String → Option String → String → Result (Option Real)
  db_get_est_pre_mig_time db user none dest = elim (db.est_time_users user) [
    | none ↦ raise key_error
    | some e ↦ return none
  ]
  db_get_est_pre_mig_time db user (some source) dest = elim (db.est_time_users user) [
    | none ↦ raise key_error
    | some e ↦ return (get_est_pre_mig_time e source dest)
  ]

  -- cur_server == dest_server
  abbrev is_at : Option String → String → Bool
  is_at none dest = false
  is_at (some s) dest = s == dest

  -- The lifetime till a handover, if that ends before `life_time`.
  abbrev sooner : Real → Real → Real
  sooner temp_time life_time = if lt temp_time life_time then temp_time else life_time

  module _ (forecast : Forecast) where
    -- One round of the loop over the neighbours.
    unfoldable pub shortened : DbCentral → String → String → Real → Real → String → Result Real
    shortened db end_user cur_bts t_pre_mig life_time d_bts =
        if d_bts == cur_bts
        then return life_time
        else elim (forecast.get_handover_time db end_user cur_bts d_bts (of_ℕ 2)) [
          | raise e ↦ raise e
          | return none ↦ return life_time
          | return (some till_ho) ↦ return (sooner (minus till_ho (times_1_1 t_pre_mig)) life_time)
        ]

    -- The loop over the neighbours of lifetime_to_average_pre_mig and lifetime_to_max_pre_mig.
    unfoldable pub till_handover :
        DbCentral → String → String → Real → Real → List String → Result Real
    unfolding shortened
    till_handover db end_user cur_bts t_pre_mig life_time [] = return life_time
    till_handover db end_user cur_bts t_pre_mig life_time (d_bts ∷ rest) =
        elim (shortened db end_user cur_bts t_pre_mig life_time d_bts) [
          | raise e ↦ raise e
          | return sooner_time ↦ till_handover db end_user cur_bts t_pre_mig sooner_time rest
        ]

    -- The common body: the estimate and the lifetime, or (None, None).
    unfoldable pub lifetime_to :
        (EstimateTime → Option Real) → DbCentral → String → Result (Option (Real × Real))
    unfolding till_handover
    lifetime_to estimate db end_user = elim (query_cur_assign db end_user) [
      | none ↦ return none
      | some (cur_bts, cur_server) ↦ elim (db.est_time_users end_user) [
        | none ↦ raise key_error
        | some e ↦ elim (estimate e) [
          | none ↦ return none
          | some t_pre_mig ↦
              elim (till_handover db end_user cur_bts t_pre_mig long_enough
                (forecast.query_neighbor db end_user)) [
                  | raise x ↦ raise x
                  | return life_time ↦ return (some (t_pre_mig, life_time))
                ]
        ]
      ]
    ]

    unfoldable pub lifetime_to_average_pre_mig : DbCentral → String → Result (Option (Real × Real))
    unfolding lifetime_to
    lifetime_to_average_pre_mig = lifetime_to get_avg_est_pre_mig_time

    pub lifetime_to_max_pre_mig : DbCentral → String → Result (Option (Real × Real))
    unfolding lifetime_to
    lifetime_to_max_pre_mig = lifetime_to get_max_est_pre_mig_time

    -- The end of lifetime_to_mig and lifetime_to_pre_mig, for the time that the move takes.
    unfoldable pub wait_for :
        DbCentral → String → String → String → (Real → Real) → Result (Option Real)
    wait_for db end_user cur_bts dest_bts move =
        if cur_bts == dest_bts
        then return (some (of_ℕ 0))
        else elim (forecast.get_handover_time db end_user cur_bts dest_bts (of_ℕ 7)) [
          | raise e ↦ raise e
          | return none ↦ return none
          | return (some till_ho) ↦ return (
              some (
                sooner (minus till_ho (times_1_1 (move (get_est_handover_time cur_bts dest_bts))))
                  long_enough))
        ]

    unfoldable pub lifetime_to_mig : DbCentral → String → String → String → Result (Option Real)
    unfolding db_get_est_mig_time wait_for get_est_handover_time
    lifetime_to_mig db end_user dest_server dest_bts = elim (query_cur_assign db end_user) [
      | none ↦ return (some long_enough)
      | some (cur_bts, cur_server) ↦
          elim (if is_at cur_server dest_server
            then return (some (of_ℕ 0))
            else db_get_est_mig_time db end_user cur_server dest_server) [
              | raise e ↦ raise e
              | return none ↦ return none
              | return (some t_mig) ↦
                  wait_for db end_user cur_bts dest_bts (λ t_ho. max_real t_ho t_mig)
            ]
    ]

    pub lifetime_to_pre_mig : DbCentral → String → String → String → Result (Option Real)
    unfolding db_get_est_mig_time db_get_est_pre_mig_time wait_for get_est_handover_time
    lifetime_to_pre_mig db end_user dest_server dest_bts = elim (query_cur_assign db end_user) [
      | none ↦ return (some long_enough)
      | some (cur_bts, cur_server) ↦
          if is_at cur_server dest_server
          then wait_for db end_user cur_bts dest_bts
              (λ t_ho. plus (max_real t_ho (of_ℕ 0)) (of_ℕ 0))
          else elim (db_get_est_pre_mig_time db end_user cur_server dest_server) [
            | raise e ↦ raise e
            | return pre ↦ elim (db_get_est_mig_time db end_user cur_server dest_server) [
              | raise e ↦ raise e
              | return mig ↦ elim pre [
                | none ↦ return none
                | some t_pre_mig ↦ elim mig [
                  | none ↦ return none
                  | some t_mig ↦
                      wait_for db end_user cur_bts dest_bts
                        (λ t_ho. plus (max_real t_ho t_mig) t_pre_mig)
                ]
              ]
            ]
          ]
    ]
