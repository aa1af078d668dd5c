-- ===== src/Planner/Optimizing.antt =====
-- compute_plan of the optimizing planner (optimization_planner.py, stats_edge.py), up to where its
-- `solve` stops. For the first user, `solve` calls get_estimated_neighbor of stats_edge.py, which
-- calls a method that DBCentral does not have (query_neighbor_candidates): an AttributeError. Without
-- a user, it hands pulp a problem without variables, whose outcome is a parameter.
use mec_measurements.Prelude.{
  ℕ, ◌-◌, String, Bool, true, false, none, some, List, [], ◌∷◌, ◌≡◌, ◌⊎◌, inl, inr, refl, not, any,
  ltb, length, is_some, if◌then◌else◌, ◌&&◌, ◌||◌, arith,
}
use mec_measurements.Platform.{Platform}
use mec_measurements.Effects.{
  Result, Exception, return, raise, attribute_error, type_error, key_error, Result-cases,
}
use mec_measurements.Database.Rows.{ServiceInfo, DbCentral}
use mec_measurements.Database.Queries.{query_cur_assign}
use mec_measurements.Planner.Stats.{get_user_names, get_server_names, get_bts_names}
use mec_measurements.Planner.Lifetime.{Forecast}
use mec_measurements.Controller.State.{PlanResult, Controller}
use mec_measurements.Controller.Plans.{ComputePlan, run_optimization_planner}

-- The exceptions that compute_plan catches around `solve`; a division by zero is none of the model's.
abbrev pub is_caught : Exception → Bool
is_caught type_error = true
is_caught _ = false

module _ ⦃p : Platform⦄ where
  open p use {rows}

  -- get_cur_assign of each user, server and base station, where there are any.
  unfoldable pub all_assigned : DbCentral → List String → Bool
  all_assigned db [] = true
  all_assigned db (user ∷ rest) = is_some (query_cur_assign db user) && all_assigned db rest

  -- ServiceInfo.size.is_(None) of no service
  unfoldable pub valid_info : DbCentral → Bool
  valid_info db = not (any (λ (s : ServiceInfo). not (is_some s.size)) (rows db.services))

  -- enough_info of the users, up to the first one that has not enough
  unfoldable pub enough_info : DbCentral → ℕ → List String → Result Bool
  enough_info db no_connects [] = return true
  enough_info db no_connects (user ∷ rest) =
      let others = enough_info db no_connects rest in
      elim (db.est_time_users user) [
        | none ↦ raise key_error
        | some e ↦ if ltb e.no_connect no_connects then return false else others
      ]

  abbrev is_empty : List String → Bool
  is_empty [] = true
  is_empty (_ ∷ _) = false

  module _ (solve_nothing : DbCentral → Result (Unit {0})) where
    -- self.solve and self.diff_assign: without a user, there is no difference.
    unfoldable pub solve : DbCentral → List String → Result (List PlanResult)
    solve db [] = elim (solve_nothing db) [ raise e ↦ raise e | return tt ↦ return [] ]
    solve db (user ∷ rest) = raise attribute_error

    unfoldable pub compute_plan : ComputePlan
    unfolding all_assigned valid_info enough_info solve
    compute_plan db =
        let users = get_user_names db in
        let no_product = is_empty (get_server_names db) || is_empty (get_bts_names db) in
        if no_product || all_assigned db users
        then if valid_info db
          then elim (enough_info db (length (get_server_names db) - 1) users) [
            | raise e ↦ raise e
            | return false ↦ return []
            | return true ↦ elim (solve db users) [
              | return plans ↦ return plans
              | raise e ↦ if is_caught e then return [] else raise e
            ]
          ]
          else return []
        else raise type_error

    solve-empty :
        (db : DbCentral) (users : List String) (plans : List PlanResult)
        → solve db users ≡ return plans
        → plans ≡ []
    unfolding solve
    solve-empty db [] plans h = ground arith
    solve-empty db (user ∷ rest) plans h = absurd (ground arith)

    plans-empty :
        (db : DbCentral) (plans : List PlanResult) → compute_plan db ≡ return plans → plans ≡ []
    unfolding compute_plan
    plans-empty db plans h = ground (arith, solve-empty db (get_user_names db))

    -- The optimizing planner has no plan: a run gives the empty list or raises.
    compute_plan-empty :
        (db : DbCentral)
        → (compute_plan db ≡ return []) ⊎ ((e : Exception) × (compute_plan db ≡ raise e))
    compute_plan-empty db = elim (Result-cases (compute_plan db)) [
      | inl (plans, e) ↦ inl (rw (← plans-empty db plans e) e)
      | inr failed ↦ inr failed
    ]

    -- A run of the controller with the optimizing planner leaves the controller as it is.
    pub run_optimization_planner_idle :
        (forecast : Forecast) (c : Controller)
        → (run_optimization_planner forecast compute_plan c).1 ≡ c
    unfolding run_optimization_planner
    run_optimization_planner_idle forecast c = elim (compute_plan-empty c.db) [
      | inl e ↦ rw e refl
      | inr (x, e) ↦ rw e refl
    ]
