-- ===== src/Examples/Planners.antt =====
-- The theorems on the planners, applied: the user hears only the second base station.
use mec_measurements.Prelude.{
  true, false, ℕ, String, Option, none, some, List, [], ◌∷◌, ◌≡◌, ◌≢◌, refl, ◌==◌, any, ltb, arith,
  eq_refl, All, Among,
}
use mec_measurements.Prelude.Dict.{empty}
use mec_measurements.Effects.{Result, return}
use mec_measurements.Database.Rows.{EndUserInfo, BtsInfo, DbCentral}
use mec_measurements.Database.Queries.{get_bts, get_user}
use mec_measurements.Controller.Plans.{run_optimization_planner}
use mec_measurements.Planner.Stats.{Random, RssiMonitor}
use mec_measurements.Planner.Plans.{Planner, random_plan, rssi_plan}
use mec_measurements.Planner.Plans.Laws.{plans_of, IsRandomPlan, random_plan_sound}
use mec_measurements.Planner.Plans.Rssi.{IsRssiPlan, rssi_plan_sound}
use mec_measurements.Planner.Optimizing.{compute_plan, run_optimization_planner_idle}
use mec_measurements.Database.Handover.{
  Point, HandoverPoints, approx, find_remain_time, remain_times, select_time, get_handover_time,
}
use mec_measurements.Database.Handover.Laws.{Earliest, get_handover_time-Earliest}
use mec_measurements.Examples.{
  sample, sample-IsOrdered, a_user, a_db, a_bts, a_service, a_forecast, a_controller,
}

the_first : List String → Option String
the_first [] = none
the_first (name ∷ rest) = some name

the_first_sound :
    (names : List String) (name : String)
    → the_first names ≡ some name
    → any (λ n. n == name) names ≡ true
unfolding the_first
the_first_sound [] name h = ground arith
the_first_sound (n ∷ rest) name h = ground (arith, eq_refl n)

the_first_total : (name : String) (names : List String) → the_first (name ∷ names) ≢ none
unfolding the_first
the_first_total name names h = ground arith

-- A choice of the first name.
abbrev a_random : Random
a_random = record {
  choice = λ call. the_first;
  choice_sound = λ call. the_first_sound;
  choice_total = λ call. the_first_total;
}

abbrev two_bts : DbCentral ⦃p = sample⦄
two_bts = record a_db {
  btss =
      ("bts01", a_bts) ∷ ("bts02", record a_bts { name = "bts02"; server_id = some "edge01" }) ∷ [];
}

-- Every service's size is known.
abbrev sized : DbCentral ⦃p = sample⦄
sized = record a_db { services = ("openfaceu", record a_service { size = some 1 }) ∷ [] }

abbrev hears : DbCentral ⦃p = sample⦄ → String → List (RssiMonitor ⦃p = sample⦄)
hears db user = record { bts = "bts02"; rssi = 40 } ∷ []

abbrev a_planner : Planner
a_planner = record { cur_assign = empty; next_assign = empty }

abbrev pulp_ends : DbCentral ⦃p = sample⦄ → Result (Unit {0})
pulp_ends db = return tt

random_plan_sound_example :
    All
      (IsRandomPlan a_random hears two_bts sample-IsOrdered)
      (plans_of (random_plan a_random hears two_bts a_planner).0)
random_plan_sound_example = random_plan_sound a_random hears two_bts sample-IsOrdered a_planner

rssi_plan_sound_example :
    All
      (IsRssiPlan a_random hears two_bts sample-IsOrdered)
      (plans_of (rssi_plan a_random hears two_bts a_planner).0)
rssi_plan_sound_example = rssi_plan_sound a_random hears two_bts sample-IsOrdered a_planner

run_optimization_planner_idle_example :
    (run_optimization_planner a_forecast (compute_plan pulp_ends) a_controller).1 ≡ a_controller
run_optimization_planner_idle_example =
    run_optimization_planner_idle pulp_ends a_forecast a_controller

-- The user walks along the diagonal, and would hand over at one of two points of it.
abbrev walking : EndUserInfo ⦃p = sample⦄
walking = record a_user { x = some 0; y = some 0; velocity_x = some 10; velocity_y = some 10 }

abbrev a_walk : DbCentral ⦃p = sample⦄
a_walk = record two_bts { users = ("u", walking) ∷ [] }

abbrev two_points : HandoverPoints ⦃p = sample⦄
two_points a b src dst hys = return (some ((200, 200) ∷ (100, 100) ∷ []))

get_handover_time-Earliest_example :
    (row : EndUserInfo) × (from : BtsInfo) × (to : BtsInfo) × (points : List Point) × (times : List
      (Option ℕ))
    × (get_user a_walk "u" ≡ some row)
    × (get_bts a_walk "bts01" ≡ some from)
    × (get_bts a_walk "bts02" ≡ some to)
    × (two_points row.a row.b (from.x, from.y) (to.x, to.y) 70 ≡ return (some points))
    × (remain_times row points ≡ return times)
    × Among (some 100) times
    × (ltb 100 0 ≡ false)
    × All (Earliest sample-IsOrdered 100) times
unfolding get_handover_time remain_times find_remain_time approx select_time get_user get_bts
get_handover_time-Earliest_example =
    get_handover_time-Earliest sample-IsOrdered two_points a_walk "u" "bts01" "bts02" 70 100 refl
