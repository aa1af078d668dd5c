-- ===== src/Planner/Lifetime/Bounds.antt =====
-- How the lifetimes of planner.py lie against the forecast handovers. Floats are compared as numbers
-- that are not NaN (`IsOrdered`).
use mec_measurements.Prelude.{
  not, String, Bool, true, false, Option, none, some, List, [], ◌∷◌, ◌==◌, ◌≡◌, refl, All,
  if◌then◌else◌, arith, Bool-cases, Option-cases, inl, inr, ◌⊎◌,
}
use mec_measurements.Platform.{Platform, Real, times_1_1}
use mec_measurements.Effects.{return, raise, Result-cases}
use mec_measurements.Database.Estimate.{EstimateTime, get_avg_est_pre_mig_time, get_est_mig_time}
use mec_measurements.Database.Estimate.Laws.{IsOrdered}
use mec_measurements.Database.Rows.{DbCentral}
use mec_measurements.Database.Queries.{query_cur_assign}
use mec_measurements.Planner.Lifetime.{
  Forecast, long_enough, shortened, till_handover, lifetime_to, lifetime_to_average_pre_mig,
  lifetime_to_mig, sooner, wait_for, db_get_est_mig_time, max_real, get_est_handover_time,
}

module _ ⦃p : Platform⦄ (order : IsOrdered) (forecast : Forecast) where
  open p use {of_ℕ, minus, lt}

  sooner-le : (a b : Real) → lt b (sooner a b) ≡ false
  sooner-le a b = elim (Bool-cases (lt a b)) [
    | inl e ↦ rw e (order.lt_asymm a b e)
    | inr e ↦ rw e (order.lt_irrefl b)
  ]

  sooner-le_left : (a b : Real) → lt a (sooner a b) ≡ false
  sooner-le_left a b = elim (Bool-cases (lt a b)) [
    | inl e ↦ rw e (order.lt_irrefl a)
    | inr e ↦ rw e e
  ]

  module _ (db : DbCentral) (end_user cur_bts : String) (t_pre_mig : Real) where
    -- A lifetime `m` ends at least 1.1 times the pre-migration time before the forecast handover to
    -- a neighbour other than the current base station, if there is one.
    abbrev pub is_before : Real → String → Bool
    is_before m d_bts =
        if d_bts == cur_bts
        then true
        else elim (forecast.get_handover_time db end_user cur_bts d_bts (of_ℕ 2)) [
          | raise e ↦ true
          | return none ↦ true
          | return (some till_ho) ↦ not (lt (minus till_ho (times_1_1 t_pre_mig)) m)
        ]

    abbrev pub Before : Real → String → Type 0
    Before m d_bts = is_before m d_bts ≡ true

    -- What one round gives.
    shortened_lem :
        (life_time l : Real) (d_bts : String)
        → shortened forecast db end_user cur_bts t_pre_mig life_time d_bts ≡ return l
        → (lt life_time l ≡ false) × ((m : Real) → lt l m ≡ false → Before m d_bts)
    unfolding shortened
    shortened_lem life_time l d_bts h = elim (Bool-cases (d_bts == cur_bts)) [
      | inl same ↦ (ground (arith, order.lt_irrefl life_time), λ m k. ground arith)
      | inr other ↦
          elim (Result-cases (forecast.get_handover_time db end_user cur_bts d_bts (of_ℕ 2))) [
            | inr (x, e) ↦ absurd (ground arith)
            | inl (none, e) ↦ (ground (arith, order.lt_irrefl life_time), λ m k. ground arith)
            | inl (some t, e) ↦
                let temp = minus t (times_1_1 t_pre_mig) in
                let found : l ≡ sooner temp life_time = ground arith in
                (
                  rw found (sooner-le temp life_time),
                  λ m k.
                      rw
                        (
                          other,
                          e,
                          order.le_trans m (sooner temp life_time) temp (rw found at k)
                              (sooner-le_left temp life_time),
                        )
                        refl,
                )
          ]
    ]

    till_handover-Before :
        (life_time l : Real) (neighbours : List String)
        → till_handover forecast db end_user cur_bts t_pre_mig life_time neighbours ≡ return l
        → (lt life_time l ≡ false) × All (Before l) neighbours
    unfolding till_handover
    till_handover-Before life_time l [] h = (ground (arith, order.lt_irrefl life_time), tt)
    till_handover-Before life_time l (d ∷ rest) h =
        elim (Result-cases (shortened forecast db end_user cur_bts t_pre_mig life_time d)) [
          | inr (x, e) ↦ absurd (ground arith)
          | inl (next, e) ↦
              let (le, before) = shortened_lem life_time next d e in
              let (le_rest, rest_before) =
                till_handover-Before next l rest (rw (till_handover, e) at h) in
              (order.le_trans l next life_time le_rest le, (before l le_rest, rest_before))
        ]

  -- The time that is returned is the estimate.
  lifetime_to-estimate :
      (estimate : EstimateTime → Option Real) (db : DbCentral) (end_user cur_bts : String)
      (server : Option String) (t l : Real)
      → query_cur_assign db end_user ≡ some (cur_bts, server)
      → lifetime_to forecast estimate db end_user ≡ return (some (t, l))
      → (e : EstimateTime) × (db.est_time_users end_user ≡ some e) × (estimate e ≡ some t)
  unfolding lifetime_to
  lifetime_to-estimate estimate db end_user cur_bts server t l here h =
      elim (Option-cases (db.est_time_users end_user)) [
        | inl f ↦ absurd (ground arith)
        | inr (e, f) ↦ (e, f, ground arith)
      ]

  lifetime_to-eq :
      (estimate : EstimateTime → Option Real) (db : DbCentral) (end_user cur_bts : String)
      (server : Option String) (t l : Real)
      → query_cur_assign db end_user ≡ some (cur_bts, server)
      → lifetime_to forecast estimate db end_user ≡ return (some (t, l))
      → till_handover forecast db end_user cur_bts t long_enough
          (forecast.query_neighbor db end_user)
        ≡ return l
  unfolding lifetime_to
  lifetime_to-eq estimate db end_user cur_bts server t l here h = ground arith

  -- The time that lifetime_to_average_pre_mig returns for an assigned user is the average of the
  -- user's estimated pre-migration times, and the lifetime is at most 1000 seconds and ends at least
  -- 1.1 times that average before each handover that is forecast to one of the neighbours of
  -- query_neighbor other than the user's base station.
  pub lifetime_to_average_pre_mig_bounds :
      (db : DbCentral) (end_user cur_bts : String) (server : Option String) (t l : Real)
      → query_cur_assign db end_user ≡ some (cur_bts, server)
      → lifetime_to_average_pre_mig forecast db end_user ≡ return (some (t, l))
      → ((e : EstimateTime) × (db.est_time_users end_user ≡ some e)
          × (get_avg_est_pre_mig_time e ≡ some t))
        × (lt long_enough l ≡ false)
        × All (Before db end_user cur_bts t l) (forecast.query_neighbor db end_user)
  unfolding lifetime_to_average_pre_mig
  lifetime_to_average_pre_mig_bounds db end_user cur_bts server t l here h =
      let estimated =
        lifetime_to-estimate get_avg_est_pre_mig_time db end_user cur_bts server t l here h in
      let (at_most, before) =
        till_handover-Before db end_user cur_bts t long_enough l
          (forecast.query_neighbor db end_user)
          (lifetime_to-eq get_avg_est_pre_mig_time db end_user cur_bts server t l here h) in
      (estimated, at_most, before)

  -- What a lifetime to the migration is: nothing without a change of the base station; else at most
  -- 1000 seconds and at least 1.1 times the longer of handover and migration before the handover.
  abbrev pub MigratesBefore : DbCentral → String → String → String → Real → Real → Type 0
  MigratesBefore db end_user cur_bts dest_bts t_mig l =
      ((cur_bts == dest_bts) ≡ true) × (l ≡ of_ℕ 0)
      ⊎ ((till_ho : Real) × ((cur_bts == dest_bts) ≡ false)
          × (forecast.get_handover_time db end_user cur_bts dest_bts (of_ℕ 7)
              ≡ return (some till_ho))
          × (lt long_enough l ≡ false)
          × (lt
                (minus till_ho
                  (times_1_1 (max_real (get_est_handover_time cur_bts dest_bts) t_mig)))
                l
              ≡ false))

  wait_for-MigratesBefore :
      (db : DbCentral) (end_user cur_bts dest_bts : String) (t_mig l : Real)
      → wait_for forecast db end_user cur_bts dest_bts (λ t_ho. max_real t_ho t_mig)
        ≡ return (some l)
      → MigratesBefore db end_user cur_bts dest_bts t_mig l
  unfolding wait_for
  wait_for-MigratesBefore db end_user cur_bts dest_bts t_mig l h =
      elim (Bool-cases (cur_bts == dest_bts)) [
        | inl same ↦ inl (same, ground arith)
        | inr other ↦
            elim (Result-cases (forecast.get_handover_time db end_user cur_bts dest_bts (of_ℕ 7))) [
              | inr (x, e) ↦ absurd (ground arith)
              | inl (none, e) ↦ absurd (ground arith)
              | inl (some till_ho, e) ↦
                  let temp =
                    minus till_ho
                      (times_1_1 (max_real (get_est_handover_time cur_bts dest_bts) t_mig)) in
                  let found : l ≡ sooner temp long_enough = ground arith in
                  inr (
                    till_ho,
                    other,
                    e,
                    rw found (sooner-le temp long_enough),
                    rw found (sooner-le_left temp long_enough),
                  )
            ]
      ]

  -- lifetime_to_mig to a server other than the current one, where it returns a time, returns one that
  -- is so for the estimated migration time.
  pub lifetime_to_mig-MigratesBefore :
      (db : DbCentral) (end_user cur_bts cur_server dest_server dest_bts : String) (l : Real)
      → query_cur_assign db end_user ≡ some (cur_bts, some cur_server)
      → (cur_server == dest_server) ≡ false
      → lifetime_to_mig forecast db end_user dest_server dest_bts ≡ return (some l)
      → (e : EstimateTime) × (t_mig : Real) × (db.est_time_users end_user ≡ some e)
        × (get_est_mig_time e cur_server dest_server ≡ some t_mig)
        × MigratesBefore db end_user cur_bts dest_bts t_mig l
  unfolding lifetime_to_mig db_get_est_mig_time
  lifetime_to_mig-MigratesBefore db end_user cur_bts cur_server dest_server dest_bts l here away h =
      elim (Option-cases (db.est_time_users end_user)) [
        | inl no_user ↦ absurd (ground arith)
        | inr (e, user) ↦ elim (Option-cases (get_est_mig_time e cur_server dest_server)) [
          | inl no_time ↦ absurd (ground arith)
          | inr (t_mig, time) ↦ (
            e,
            t_mig,
            user,
            time,
            wait_for-MigratesBefore db end_user cur_bts dest_bts t_mig l (ground arith),
          )
        ]
      ]
