-- ===== src/Planner/Plans.antt =====
-- The cloud, the random and the RSSI planner of planner.py. A planner's state are its dictionaries
-- `cur_assign` and `next_assign`; what it writes before an exception stays.
pub mod Laws
pub mod Placing
pub mod Rssi
use mec_measurements.Prelude.{
  ℕ, zero, suc, ◌+◌, String, Bool, true, false, Option, none, some, List, [], ◌∷◌, ◌++◌, ◌==◌, ◌&&◌,
  not, eqb, if◌then◌else◌,
}
use mec_measurements.Prelude.Dict.{Dict, put}
use mec_measurements.Platform.{Platform}
use mec_measurements.Effects.{
  Result, return, raise, type_error, attribute_error, Action, needed, modify, pure, ◌>>=◌, ◌>>◌,
}
use mec_measurements.Database.Rows.{EndUserInfo, EdgeServerInfo, BtsInfo, DbCentral}
use mec_measurements.Database.Queries.{query_cur_assign, get_bts, get_server}
use mec_measurements.Planner.Stats.{
  Random, choose, RssiMonitor, get_user_names, get_server_names, get_cloud_server, get_max_rssi_bts,
  get_max_rssi_threshold_bts,
}

-- A base station and a server, which may be missing.
abbrev pub Assign : Type 0
Assign = String × Option String

-- PlanResult, as the planners give it: without a server, `next_server` is None.
pub record Plan : Type 0 where
  pub user : String
  pub next_bts : String
  pub next_server : Option String

pub record Planner : Type 0 where
  pub cur_assign : Dict (Option Assign)
  pub next_assign : Dict Assign

-- MigrationPlanner.get_plan
unfoldable pub get_plan : Planner → String → Option Plan
get_plan planner user = elim (planner.cur_assign user) [
  | none ↦ none
  | some none ↦ none
  | some (some (bts, server)) ↦ some (record { user = user; next_bts = bts; next_server = server })
]

-- self.cur_assign[user] = assign
abbrev pub set_cur : String → Option Assign → Planner → Planner
set_cur user assign planner = record planner { cur_assign = put planner.cur_assign user assign }

abbrev set_next : String → Assign → Planner → Planner
set_next user assign planner = record planner { next_assign = put planner.next_assign user assign }

-- assign[0] and assign[1] of a tuple that may be None
abbrev parts : Option Assign → Result Assign
parts none = raise type_error
parts (some a) = return a

-- The test `!=` of the texts.
abbrev pub differs : String → String → Bool
differs a b = not (a == b)

-- The test `==` of two servers that may be None.
abbrev pub same_server : Option String → Option String → Bool
same_server none none = true
same_server (some a) (some b) = a == b
same_server _ _ = false

-- last_assign != new_assign
abbrev pub moves : Option Assign → Assign → Bool
moves none new_assign = true
moves (some last) new_assign = not (last.0 == new_assign.0 && same_server last.1 new_assign.1)

module _ ⦃p : Platform⦄ where
  module _ (random : Random) (query_neighbor : DbCentral → String → List RssiMonitor)
      (db : DbCentral) where
    -- The body of the loop of CloudPlanner.compute_plan.
    unfoldable pub cloud_user : Option String → String → Action Planner (List Plan)
    cloud_user cloud_server user planner =
        let last_assign = query_cur_assign db user in
        let known = set_cur user last_assign planner in
        elim (get_max_rssi_threshold_bts query_neighbor db user) [
          | raise e ↦ (raise e, known)
          | return none ↦ (return [], known)
          | return (some bts) ↦ elim last_assign [
            | none ↦ (raise type_error, known)
            | some last ↦ (
              return (
                  if differs last.0 bts.name
                  then record { user = user; next_bts = bts.name; next_server = cloud_server } ∷ []
                  else []),
              known,
            )
          ]
        ]

    -- The body of the loop of RandomPlanner.compute_plan; `call` numbers the users.
    unfoldable pub random_user : ℕ → String → Action Planner (List Plan)
    random_user call user planner =
        let last_assign = query_cur_assign db user in
        let known = set_cur user last_assign planner in
        elim (get_max_rssi_threshold_bts query_neighbor db user) [
          | raise e ↦ (raise e, known)
          | return none ↦ (return [], known)
          | return (some bts) ↦ elim last_assign [
            | none ↦ (return [], known)
            | some last ↦
                if differs bts.name last.0
                then elim (choose random call (get_server_names db)) [
                  | raise e ↦ (raise e, known)
                  | return server ↦ (
                    return (
                        record { user = user; next_bts = bts.name; next_server = some server }
                        ∷ []),
                    set_next user (bts.name, some server) known,
                  )
                ]
                else (return [], known)
          ]
        ]

    -- The server of a base station, where it has one with cores, and else `other`.
    -- `bts.server` is None where the server that the key names is not stored.
    unfoldable pub server_of_bts : BtsInfo → Result (Option String) → Result (Option String)
    server_of_bts bts other = elim bts.server_id [
      | none ↦ other
      | some server_id ↦ elim (get_server db server_id) [
        | none ↦ raise attribute_error
        | some server ↦ elim server.core_cpu [
          | none ↦ return (some server_id)
          | some cores ↦ if eqb cores 0 then other else return (some server_id)
        ]
      ]
    ]

    -- self.cur_assign[user][1]
    abbrev pub current_server : Option Assign → Result (Option String)
    current_server none = raise type_error
    current_server (some a) = return a.1

    -- The body of the loop of RSSIPlanner.compute_plan.
    unfoldable pub rssi_user : String → Action Planner (List Plan)
    unfolding server_of_bts
    rssi_user user planner =
        let last_assign = query_cur_assign db user in
        let known = set_cur user last_assign planner in
        elim (get_max_rssi_bts query_neighbor db user) [
          | none ↦ (return [], known)
          | some bts ↦ elim (server_of_bts bts (current_server last_assign)) [
            | raise e ↦ (raise e, known)
            | return server ↦ (
              return (
                  if moves last_assign (bts.name, server)
                  then record { user = user; next_bts = bts.name; next_server = server } ∷ []
                  else []),
              set_cur user (some (bts.name, server)) known,
            )
          ]
        ]

    -- The loops over the users, and the three methods compute_plan.
    unfoldable pub each_user :
        (ℕ → String → Action Planner (List Plan)) → ℕ → List String → Action Planner (List Plan)
    each_user body call [] = pure []
    each_user body call (user ∷ rest) = do
      found ← body call user
      others ← each_user body (suc call) rest
      pure (found ++ others)

    unfoldable pub cloud_plan : Action Planner (List Plan)
    unfolding each_user cloud_user
    cloud_plan = each_user (λ call. cloud_user (get_cloud_server random db)) 1 (get_user_names db)

    unfoldable pub random_plan : Action Planner (List Plan)
    unfolding each_user random_user
    random_plan = each_user random_user 0 (get_user_names db)

    unfoldable pub rssi_plan : Action Planner (List Plan)
    unfolding each_user rssi_user
    rssi_plan = each_user (λ call. rssi_user) 0 (get_user_names db)

    -- place_service of the RSSI planner and of the optimizing planner, for the base station's name
    unfoldable pub rssi_place : String → Result String
    rssi_place ssid =
        let any_server = choose random 0 (get_server_names db) in
        elim (get_bts db ssid) [
          | none ↦ any_server
          | some bts ↦ elim bts.server_id [
            | none ↦ any_server
            | some server_id ↦ elim (get_server db server_id) [
              | none ↦ raise attribute_error
              | some server ↦ elim server.core_cpu [
                | none ↦ return server_id
                | some cores ↦ if eqb cores 0 then any_server else return server_id
              ]
            ]
          ]
        ]

    -- place_service of the random planner
    unfoldable pub random_place : Result String
    random_place = choose random 0 (get_server_names db)
