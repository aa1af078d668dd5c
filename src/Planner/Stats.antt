-- ===== src/Planner/Stats.antt =====
-- What the planners ask of stats_edge.py and central_database.py: names, the current assignment, and
-- the base station of the strongest signal. The records of the signals that the database gives for a
-- user (query_neighbor, a grouped query of SQLite) and the choices of `random` are parameters.
use mec_measurements.Prelude.{
  ℕ, String, Bool, true, false, Option, none, some, List, [], ◌∷◌, ◌≡◌, ◌≢◌, ◌==◌, eqb, map, filter,
  find, any, if◌then◌else◌,
}
use mathlib.Core.Option
use mec_measurements.Platform.{Platform, Real}
use mec_measurements.Effects.{Result, return, raise, attribute_error, index_error}
use mec_measurements.Database.Rows.{EndUserInfo, EdgeServerInfo, BtsInfo, DbCentral}
use mec_measurements.Database.Queries.{bts_info_of}

-- random.choice: `call` tells the calls of one run apart, and none is its IndexError.
pub record Random : Type 0 where
  pub choice : (call : ℕ) → List String → Option String
  -- what Python documents of it
  pub choice_sound :
      (call : ℕ) (names : List String) (name : String)
      → choice call names ≡ some name
      → any (λ n. n == name) names ≡ true
  pub choice_total :
      (call : ℕ) (name : String) (names : List String) → choice call (name ∷ names) ≢ none

module _ (random : Random) where
  unfoldable pub choose : ℕ → List String → Result String
  choose call names = elim (random.choice call names) [
    | none ↦ raise index_error
    | some n ↦ return n
  ]

module _ ⦃p : Platform⦄ where
  open p use {first, rows, lt, minus, of_ℕ}

  -- A row of rssi_monitor, with the columns that the planners read.
  pub record RssiMonitor : Type 0 where
    pub bts : String
    pub rssi : Real

  unfoldable pub get_user_names : DbCentral → List String
  get_user_names db = map (λ (u : EndUserInfo). u.name) (rows db.users)

  unfoldable pub get_server_names : DbCentral → List String
  get_server_names db = map (λ (s : EdgeServerInfo). s.name) (rows db.servers)

  unfoldable pub get_bts_names : DbCentral → List String
  get_bts_names db = map (λ (b : BtsInfo). b.name) (rows db.btss)

  -- The test `EdgeServerInfo.distance == distance`, for a server at the cloud.
  abbrev at_cloud : EdgeServerInfo → Bool
  at_cloud s = elim s.distance [ none ↦ false | some n ↦ eqb n 0 ]

  -- get_a_server_with_distance(0): one of the servers at the cloud, or None
  unfoldable pub get_cloud_server : Random → DbCentral → Option String
  get_cloud_server random db =
      random.choice 0 (map (λ (s : EdgeServerInfo). s.name) (filter at_cloud (rows db.servers)))

  -- max(bts_list, key=lambda x: x.rssi), for a list that starts with `best`
  abbrev pub strongest : RssiMonitor → List RssiMonitor → RssiMonitor
  strongest best [] = best
  strongest best (r ∷ rest) =
      let other = strongest r rest in
      let same = strongest best rest in if lt best.rssi r.rssi then other else same

  -- Constants.RSSI_THRESHOLD, -76
  abbrev pub rssi_threshold : Real
  rssi_threshold = minus (of_ℕ 0) (of_ℕ 76)

  -- user.bts_info, which fails for a user who is not stored
  unfoldable pub get_current_bts : DbCentral → String → Result (Option BtsInfo)
  get_current_bts db end_user = elim (first db.users end_user) [
    | none ↦ raise attribute_error
    | some user ↦ return (bts_info_of db user)
  ]

  module _ (query_neighbor : DbCentral → String → List RssiMonitor) where
    unfoldable pub get_max_rssi_bts : DbCentral → String → Option BtsInfo
    get_max_rssi_bts db user = elim (query_neighbor db user) [
      | [] ↦ none
      | r ∷ rest ↦ first db.btss (strongest r rest).bts
    ]

    unfoldable pub query_newest_rssi_bts : DbCentral → String → String → Option Real
    query_newest_rssi_bts db user bts =
        Option.map (λ (r : RssiMonitor). r.rssi)
          (find (λ (r : RssiMonitor). r.bts == bts) (query_neighbor db user))

    -- Python 2 orders None below every number.
    abbrev pub below : Real → Option Real → Bool
    below thresh none = true
    below thresh (some rssi) = lt rssi thresh

    unfoldable pub get_max_rssi_threshold_bts : DbCentral → String → Result (Option BtsInfo)
    unfolding get_max_rssi_bts query_newest_rssi_bts get_current_bts
    get_max_rssi_threshold_bts db user = elim (get_current_bts db user) [
      | raise e ↦ raise e
      | return none ↦ return none
      | return (some cur_bts) ↦ return (
          if below rssi_threshold (query_newest_rssi_bts db user cur_bts.name)
          then get_max_rssi_bts db user
          else none)
    ]
