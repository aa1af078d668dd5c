-- ===== src/Planner/Plans/Rssi.antt =====
-- What the plans of the RSSI planner promise (planner.py).
use mec_measurements.Prelude.{
  ℕ, String, true, Option, none, some, List, ◌≡◌, ◌≢◌, refl, ◌⊎◌, inl, inr, eqb, arith, All,
  Bool-cases, Option-cases,
}
use mec_measurements.Platform.{Platform}
use mec_measurements.Effects.{Result-cases, return}
use mec_measurements.Database.Estimate.Laws.{IsOrdered}
use mec_measurements.Database.Rows.{EdgeServerInfo, BtsInfo, DbCentral}
use mec_measurements.Database.Queries.{query_cur_assign, get_server}
use mec_measurements.Planner.Stats.{Random, RssiMonitor, get_user_names, get_max_rssi_bts}
use mec_measurements.Planner.Signals.{IsHeardBest, get_max_rssi_bts-IsHeardBest}
use mec_measurements.Planner.Plans.{
  Assign, Plan, Planner, rssi_user, rssi_plan, server_of_bts, current_server, moves,
}
use mec_measurements.Planner.Plans.Laws.{plans_of, each_user-All}

module _ ⦃p : Platform⦄ (random : Random) (query_neighbor : DbCentral → String → List RssiMonitor)
    (db : DbCentral) (order : IsOrdered) where
  -- The plan of the RSSI planner: it changes the base station or the server. The server is that of
  -- the base station, if it is stored and does not count zero cores, and else the current one.
  pub record IsRssiPlan (plan : Plan) : Type 0 where
    pub best : BtsInfo
    pub is_best : IsHeardBest order query_neighbor db plan.user best
    pub next_bts : plan.next_bts ≡ best.name
    pub next_server :
        ((current : Assign) × (query_cur_assign db plan.user ≡ some current)
          × (plan.next_server ≡ current.1))
        ⊎ ((server : EdgeServerInfo) × (id : String) × (best.server_id ≡ some id)
            × (get_server db id ≡ some server)
            × (server.core_cpu ≢ some 0)
            × (plan.next_server ≡ some id))
    pub is_other : moves (query_cur_assign db plan.user) (plan.next_bts, plan.next_server) ≡ true

  current_server_sound :
      (current : Option Assign) (next : Option String)
      → current_server random query_neighbor db current ≡ return next
      → (a : Assign) × (current ≡ some a) × (next ≡ a.1)
  current_server_sound none next h = absurd (ground arith)
  current_server_sound (some a) next h = (a, refl, ground arith)

  -- What server_of_bts gives.
  server_of_bts_sound :
      (bts : BtsInfo) (current : Option Assign) (next : Option String)
      → server_of_bts random query_neighbor db bts (current_server random query_neighbor db current)
        ≡ return next
      → ((a : Assign) × (current ≡ some a) × (next ≡ a.1))
        ⊎ ((server : EdgeServerInfo) × (id : String) × (bts.server_id ≡ some id)
            × (get_server db id ≡ some server)
            × (server.core_cpu ≢ some 0)
            × (next ≡ some id))
  unfolding server_of_bts
  server_of_bts_sound bts current next h = elim (Option-cases bts.server_id) [
    | inl e ↦ inl (current_server_sound current next (rw (server_of_bts, e) at h))
    | inr (id, e) ↦ elim (Option-cases (get_server db id)) [
      | inl f ↦ absurd (ground arith)
      | inr (server, f) ↦ elim (Option-cases server.core_cpu) [
        | inl g ↦ inr (server, id, e, f, (λ k. ground arith), ground arith)
        | inr (cores, g) ↦ elim (Bool-cases (eqb cores 0)) [
          | inl zero_cores ↦
              inl (current_server_sound current next (rw (server_of_bts, e, f, g, zero_cores) at h))
          | inr positive ↦ inr (server, id, e, f, (λ k. ground arith), ground arith)
        ]
      ]
    ]
  ]

  rssi_user-All :
      (call : ℕ) (user : String) (planner : Planner)
      → All IsRssiPlan (plans_of (rssi_user random query_neighbor db user planner).0)
  unfolding rssi_user
  rssi_user-All call user planner = elim (Option-cases (get_max_rssi_bts query_neighbor db user)) [
    | inl f ↦ rw (All, rssi_user, f) tt
    | inr (bts, f) ↦
        elim (Result-cases (
          server_of_bts random query_neighbor db bts
            (current_server random query_neighbor db (query_cur_assign db user)))) [
              | inr (e, g) ↦ rw (All, rssi_user, f, g) tt
              | inl (server, g) ↦
                  elim (Bool-cases (moves (query_cur_assign db user) (bts.name, server))) [
                    | inr stays ↦ rw (All, rssi_user, f, g, stays) tt
                    | inl other ↦
                        rw (All, rssi_user, f, g, other)
                          (
                            record {
                              best = bts;
                              is_best =
                                  get_max_rssi_bts-IsHeardBest order query_neighbor db user bts f;
                              next_bts = refl;
                              next_server =
                                  server_of_bts_sound bts (query_cur_assign db user) server g;
                              is_other = other;
                            },
                            tt,
                          )
                  ]
            ]
  ]

  -- If floats are ordered, then each plan of the RSSI planner changes the base station or the server of
  -- its user and leads to a base station than whose signal none of the user's is stronger; the server is that of the base station, which is
  -- stored and does not count zero cores, or the one that the user has.
  pub rssi_plan_sound :
      (planner : Planner) → All IsRssiPlan (plans_of (rssi_plan random query_neighbor db planner).0)
  unfolding rssi_plan
  rssi_plan_sound planner =
      each_user-All random query_neighbor db order IsRssiPlan
        (λ call. rssi_user random query_neighbor db) rssi_user-All (get_user_names db) 0 planner
