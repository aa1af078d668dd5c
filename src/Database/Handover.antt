-- ===== src/Database/Handover.antt =====
-- When a user hands over: get_handover_time of central_database.py with find_remain_time of
-- estimator.py. The points of the user's line where the signals differ by the hysteresis are the
-- real roots of a quadratic, which sympy and numpy compute: they are a parameter.
pub mod Laws
use mec_measurements.Prelude.{
  String, Bool, true, false, Option, none, some, List, [], ◌∷◌, ◌&&◌, not, is_some, if◌then◌else◌,
}
use mec_measurements.Platform.{Platform, Real, zero_real}
use mec_measurements.Effects.{
  Result, return, raise, attribute_error, type_error, index_error, value_error,
}
use mec_measurements.Database.Rows.{EndUserInfo, BtsInfo, DbCentral}
use mec_measurements.Database.Queries.{get_user, get_bts}
use mec_measurements.Planner.Lifetime.{Forecast}

module _ ⦃p : Platform⦄ where
  open p use {of_ℕ, plus, minus, times, over, lt}

  abbrev pub Point : Type 0
  Point = Real × Real

  -- approx(a, b, eps), with abs(a - b) written out
  unfoldable pub approx : Real → Real → Real → Bool
  approx a b eps =
      if lt (minus a b) zero_real then lt (minus zero_real (minus a b)) eps else lt (minus a b) eps

  -- the default 0.00001 of eps
  abbrev eps : Real
  eps = over (of_ℕ 1) (of_ℕ 100000)

  -- The test `==` of two times, None among them; the floats are not NaN.
  abbrev same_time : Option Real → Option Real → Bool
  same_time none none = true
  same_time (some a) (some b) = not (lt a b) && not (lt b a)
  same_time _ _ = false

  -- (dst - cur) / v, unless v is about 0
  abbrev time_along : Real → Real → Real → Option Real
  time_along v dst cur = if approx v zero_real eps then none else some (over (minus dst cur) v)

  unfoldable pub find_remain_time : Point → Point → Point → Result (Option Real)
  unfolding approx
  find_remain_time pos target velocity =
      let t_x = time_along velocity.0 target.0 pos.0 in
      let t_y = time_along velocity.1 target.1 pos.1 in
      if not (is_some t_x) && approx target.0 pos.0 eps
      then return t_y
      else if not (is_some t_y) && approx target.1 pos.1 eps
      then return t_x
      else if same_time t_x t_y
      then return t_x
      else raise value_error

  unfoldable pub estimate_new_position : Point → Point → Real → Point
  estimate_new_position pos velocity time =
      (plus pos.0 (times velocity.0 time), plus pos.1 (times velocity.1 time))

  -- The order of sorted(): Python 2 puts None before every number.
  abbrev pub precedes : Option Real → Option Real → Bool
  precedes none none = false
  precedes none (some b) = true
  precedes (some a) none = false
  precedes (some a) (some b) = lt a b

  abbrev pub insert_time : Option Real → List (Option Real) → List (Option Real)
  insert_time t [] = t ∷ []
  insert_time t (u ∷ rest) =
      let later = insert_time t rest in if precedes t u then t ∷ u ∷ rest else u ∷ later

  abbrev pub sorted : List (Option Real) → List (Option Real)
  sorted [] = []
  sorted (t ∷ rest) = insert_time t (sorted rest)

  -- t >= 0
  abbrev pub is_future : Option Real → Bool
  is_future none = false
  is_future (some t) = not (lt t zero_real)

  -- The first time of the two that lies ahead.
  unfoldable pub select_time : List (Option Real) → Result (Option Real)
  select_time [] = raise index_error
  select_time (t ∷ []) = if is_future t then return t else raise index_error
  select_time (t ∷ u ∷ rest) =
      if is_future t then return t else if is_future u then return u else return none

  -- The position and the velocity of a user: update_eu_position writes all of them together.
  abbrev motion : EndUserInfo → Option (Point × Point)
  motion user = elim user.x [
    | none ↦ none
    | some x ↦ elim user.y [
      | none ↦ none
      | some y ↦ elim user.velocity_x [
        | none ↦ none
        | some v_x ↦ elim user.velocity_y [ none ↦ none | some v_y ↦ some ((x, y), (v_x, v_y)) ]
      ]
    ]
  ]

  -- [find_remain_time(...) for point in points]
  unfoldable pub remain_times : EndUserInfo → List Point → Result (List (Option Real))
  unfolding find_remain_time
  remain_times user [] = return []
  remain_times user (point ∷ rest) = elim (motion user) [
    | none ↦ raise type_error
    | some (pos, velocity) ↦ elim (find_remain_time pos point velocity) [
      | raise e ↦ raise e
      | return t ↦ elim (remain_times user rest) [ raise e ↦ raise e | return ts ↦ return (t ∷ ts) ]
    ]
  ]

  -- estimator.find_handover_points, for the line y = a x + b, the base stations and the hysteresis
  abbrev pub HandoverPoints : Type 0
  HandoverPoints =
      (a b : Option Real)
      → (src dst : Option Real × Option Real) → Real
      → Result (Option (List Point))

  module _ (find_handover_points : HandoverPoints) where
    unfoldable pub get_handover_time :
        DbCentral → String → String → String → Real → Result (Option Real)
    unfolding remain_times select_time
    get_handover_time db user src_bs dst_bs hys = elim (get_user db user) [
      | none ↦ raise attribute_error
      | some user_obj ↦ elim (get_bts db src_bs) [
        | none ↦ raise attribute_error
        | some src ↦ elim (get_bts db dst_bs) [
          | none ↦ raise attribute_error
          | some dst ↦
              elim (find_handover_points user_obj.a user_obj.b (src.x, src.y) (dst.x, dst.y) hys) [
                | raise e ↦ raise e
                | return none ↦ return none
                | return (some points) ↦ elim (remain_times user_obj points) [
                  | raise e ↦ raise e
                  | return times ↦ select_time (sorted times)
                ]
              ]
        ]
      ]
    ]

    -- The planners' view of the database.
    abbrev pub central_forecast : (DbCentral → String → List String) → Forecast
    central_forecast query_neighbor = record {
      query_neighbor = query_neighbor;
      get_handover_time = get_handover_time;
    }
