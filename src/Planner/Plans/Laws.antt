-- ===== src/Planner/Plans/Laws.antt =====
-- What the plans of the planners promise (planner.py).
use mec_measurements.Prelude.{
  ℕ, suc, String, true, false, none, some, List, [], ◌∷◌, ◌++◌, ◌≡◌, refl, ◌==◌, inl, inr, any,
  arith, All, All-append, eq_iff, Bool-cases, Option-cases,
}
use mec_measurements.Platform.{Platform}
use mec_measurements.Effects.{Result, Result-cases, return, raise, Action, and_then, pure, ◌>>=◌}
use mec_measurements.Database.Estimate.Laws.{IsOrdered}
use mec_measurements.Database.Rows.{BtsInfo, DbCentral}
use mec_measurements.Database.Queries.{query_cur_assign}
use mec_measurements.Planner.Stats.{
  Random, choose, RssiMonitor, get_user_names, get_server_names, get_cloud_server,
  get_max_rssi_threshold_bts,
}
use mec_measurements.Planner.Signals.{IsWeak, IsHeardBest, get_max_rssi_threshold_bts-IsWeak}
use mec_measurements.Planner.Plans.{
  Assign, Plan, Planner, cloud_user, random_user, each_user, cloud_plan, random_plan,
}

-- The plans of a run; one that raises has none.
abbrev pub plans_of : Result (List Plan) → List Plan
plans_of (return plans) = plans
plans_of (raise e) = []

abbrev IsName : List String → String → Type 0
IsName names name = any (λ n. n == name) names ≡ true

choose-IsName :
    (random : Random) (call : ℕ) (names : List String) (name : String)
    → choose random call names ≡ return name
    → IsName names name
unfolding choose
choose-IsName random call names name h = ground (arith, random.choice_sound call names name)

module _ ⦃p : Platform⦄ (random : Random) (query_neighbor : DbCentral → String → List RssiMonitor)
    (db : DbCentral) (order : IsOrdered) where
  -- The plan is for a user whose signal is below the threshold, who is at another base station and
  -- is sent to that of the strongest signal.
  pub record Switches (plan : Plan) : Type 0 where
    pub current : Assign
    pub best : BtsInfo
    pub is_current : query_cur_assign db plan.user ≡ some current
    pub is_weak : IsWeak order query_neighbor db plan.user
    pub is_best : IsHeardBest order query_neighbor db plan.user best
    pub next_bts : plan.next_bts ≡ best.name
    pub is_other : (current.0 == plan.next_bts) ≡ false

  module _ (P : Plan → Type 0) (body : ℕ → String → Action Planner (List Plan))
      (each : (call : ℕ) (user : String) (planner : Planner)
        → All P (plans_of (body call user planner).0)) where
    appended-All :
        (found : List Plan) (r : Result (List Plan) × Planner)
        → All P found
        → All P (plans_of r.0)
        → All P (plans_of (and_then r.0 (λ others. pure (found ++ others)) r.1).0)
    appended-All found (return others, planner) h later = All-append P found others h later
    appended-All found (raise e, planner) h later = tt

    joined-All :
        (r : Result (List Plan) × Planner) (rest : Action Planner (List Plan))
        → All P (plans_of r.0)
        → ((planner : Planner) → All P (plans_of (rest planner).0))
        → All P (plans_of (and_then r.0 (λ found. rest >>= λ others. pure (found ++ others)) r.1).0)
    joined-All (return found, planner) rest h later =
        appended-All found (rest planner) h (later planner)
    joined-All (raise e, planner) rest h later = tt

    pub each_user-All :
        (users : List String) (call : ℕ) (planner : Planner)
        → All P (plans_of (each_user random query_neighbor db body call users planner).0)
    unfolding each_user
    each_user-All [] call planner = tt
    each_user-All (user ∷ rest) call planner =
        joined-All (body call user planner)
          (each_user random query_neighbor db body (suc call) rest) (each call user planner)
          (each_user-All rest (suc call))

  -- The plan of the cloud planner.
  abbrev pub IsCloudPlan : Plan → Type 0
  IsCloudPlan plan = Switches plan × (plan.next_server ≡ get_cloud_server random db)

  cloud_user-All :
      (call : ℕ) (user : String) (planner : Planner)
      → All IsCloudPlan (
          plans_of
            (cloud_user random query_neighbor db (get_cloud_server random db) user planner).0)
  unfolding cloud_user
  cloud_user-All call user planner =
      elim (Result-cases (get_max_rssi_threshold_bts query_neighbor db user)) [
        | inr (e, f) ↦ rw (All, cloud_user, f) tt
        | inl (none, f) ↦ rw (All, cloud_user, f) tt
        | inl (some bts, f) ↦ elim (Option-cases (query_cur_assign db user)) [
          | inl g ↦ rw (All, cloud_user, f, g) tt
          | inr (last, g) ↦ elim (Bool-cases (last.0 == bts.name)) [
            | inl same ↦ rw (All, cloud_user, f, g, same) tt
            | inr other ↦
                rw (All, cloud_user, f, g, other)
                  ((
                    (
                      record {
                        current = last;
                        best = bts;
                        is_current = g;
                        is_weak =
                            (get_max_rssi_threshold_bts-IsWeak order query_neighbor db user bts
                              f).0;
                        is_best =
                            (get_max_rssi_threshold_bts-IsWeak order query_neighbor db user bts
                              f).1;
                        next_bts = refl;
                        is_other = other;
                      },
                      refl,
                    ),
                    tt,
                  ))
          ]
        ]
      ]

  -- Each plan of the cloud planner is for a user whose signal is weak, and leads to the base station of
  -- the strongest signal, which is another one, and to the server at the cloud.
  pub cloud_plan_sound :
      (planner : Planner)
      → All IsCloudPlan (plans_of (cloud_plan random query_neighbor db planner).0)
  unfolding cloud_plan
  cloud_plan_sound planner =
      each_user-All IsCloudPlan
        (λ call. cloud_user random query_neighbor db (get_cloud_server random db)) cloud_user-All
        (get_user_names db) 1 planner

  -- The plan of the random planner.
  abbrev pub IsRandomPlan : Plan → Type 0
  IsRandomPlan plan =
      Switches plan
      × (server : String) × (plan.next_server ≡ some server)
      × (any (λ n. n == server) (get_server_names db) ≡ true)

  random_user-All :
      (call : ℕ) (user : String) (planner : Planner)
      → All IsRandomPlan (plans_of (random_user random query_neighbor db call user planner).0)
  unfolding random_user
  random_user-All call user planner =
      elim (Result-cases (get_max_rssi_threshold_bts query_neighbor db user)) [
        | inr (e, f) ↦ rw (All, random_user, f) tt
        | inl (none, f) ↦ rw (All, random_user, f) tt
        | inl (some bts, f) ↦ elim (Option-cases (query_cur_assign db user)) [
          | inl g ↦ rw (All, random_user, f, g) tt
          | inr (last, g) ↦ elim (Bool-cases (bts.name == last.0)) [
            | inl same ↦ rw (All, random_user, f, g, same) tt
            | inr other ↦ elim (Result-cases (choose random call (get_server_names db))) [
              | inr (e, h) ↦ rw (All, random_user, f, g, other, h) tt
              | inl (server, h) ↦
                  rw (All, random_user, f, g, other, h)
                    (
                      (
                        record {
                          current = last;
                          best = bts;
                          is_current = g;
                          is_weak =
                              (get_max_rssi_threshold_bts-IsWeak order query_neighbor db user bts
                                f).0;
                          is_best =
                              (get_max_rssi_threshold_bts-IsWeak order query_neighbor db user bts
                                f).1;
                          next_bts = refl;
                          is_other = ground (arith, eq_iff bts.name last.0, eq_iff last.0 bts.name);
                        },
                        server,
                        refl,
                        choose-IsName random call (get_server_names db) server h,
                      ),
                      tt,
                    )
            ]
          ]
        ]
      ]

  -- If floats are ordered, then each plan of the random planner is for a user for whose base station no
  -- signal or one below -76 dBm was recorded, and leads to a base station than whose signal none of
  -- the user's is stronger, which is another one, and to a server of the database.
  pub random_plan_sound :
      (planner : Planner)
      → All IsRandomPlan (plans_of (random_plan random query_neighbor db planner).0)
  unfolding random_plan
  random_plan_sound planner =
      each_user-All IsRandomPlan (random_user random query_neighbor db) random_user-All
        (get_user_names db) 0 planner
