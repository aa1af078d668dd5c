-- ===== src/Planner/Plans/Placing.antt =====
-- What place_service of the planners gives (planner.py, optimization_planner.py).
use mec_measurements.Prelude.{
  ℕ, String, true, none, some, List, [], ◌∷◌, ◌≡◌, ◌≢◌, refl, ◌==◌, ◌⊎◌, inl, inr, eqb, any, arith,
  Bool-cases, Option-cases,
}
use mec_measurements.Platform.{Platform}
use mec_measurements.Effects.{return, raise, attribute_error, index_error}
use mec_measurements.Database.Rows.{EdgeServerInfo, BtsInfo, DbCentral}
use mec_measurements.Database.Queries.{get_bts, get_server}
use mec_measurements.Planner.Stats.{Random, choose, RssiMonitor, get_server_names}
use mec_measurements.Planner.Plans.{rssi_place}

choose-cases :
    (random : Random) (call : ℕ) (names : List String)
    → ((name : String) × (choose random call names ≡ return name)
        × (any (λ n. n == name) names ≡ true))
      ⊎ ((choose random call names ≡ raise index_error) × (names ≡ []))
unfolding choose
choose-cases random call [] = elim (Option-cases (random.choice call [])) [
  | inl e ↦ inr (rw (choose, e) refl, refl)
  | inr (name, e) ↦ absurd (ground (arith, random.choice_sound call [] name e))
]
choose-cases random call (first_name ∷ rest) =
    elim (Option-cases (random.choice call (first_name ∷ rest))) [
      | inl e ↦ absurd (random.choice_total call first_name rest e)
      | inr (name, e) ↦
          inl (name, rw (choose, e) refl, random.choice_sound call (first_name ∷ rest) name e)
    ]

module _ ⦃p : Platform⦄ (random : Random) (query_neighbor : DbCentral → String → List RssiMonitor)
    (db : DbCentral) where
  -- What place_service of the RSSI planner and of the optimizing planner gives for a base station:
  -- its server, if that is stored and does not count zero cores, or a server of the database, or an
  -- index error only where the database has no server, or an attribute error only where the base
  -- station names a server that is not stored.
  pub rssi_place_lem :
      (ssid : String)
      → ((server : String) × (rssi_place random query_neighbor db ssid ≡ return server)
          × (((bts : BtsInfo) × (info : EdgeServerInfo) × (get_bts db ssid ≡ some bts)
                × (bts.server_id ≡ some server)
                × (get_server db server ≡ some info)
                × (info.core_cpu ≢ some 0))
              ⊎ (any (λ n. n == server) (get_server_names db) ≡ true)))
        ⊎ (((rssi_place random query_neighbor db ssid ≡ raise index_error)
              × (get_server_names db ≡ []))
            ⊎ ((bts : BtsInfo) × (id : String) × (rssi_place random query_neighbor db ssid
                  ≡ raise attribute_error)
                × (get_bts db ssid ≡ some bts)
                × (bts.server_id ≡ some id)
                × (get_server db id ≡ none)))
  unfolding rssi_place
  rssi_place_lem ssid =
      let names = get_server_names db in
      let chosen = choose-cases random 0 names in
      elim (Option-cases (get_bts db ssid)) [
        | inl e ↦ elim chosen [
          | inl (n, f, g) ↦ inl (n, rw (rssi_place, e, f) refl, inr g)
          | inr (f, g) ↦ inr (inl (rw (rssi_place, e, f) refl, g))
        ]
        | inr (bts, e) ↦ elim (Option-cases bts.server_id) [
          | inl h ↦ elim chosen [
            | inl (n, f, g) ↦ inl (n, rw (rssi_place, e, h, f) refl, inr g)
            | inr (f, g) ↦ inr (inl (rw (rssi_place, e, h, f) refl, g))
          ]
          | inr (id, h) ↦ elim (Option-cases (get_server db id)) [
            | inl k ↦ inr (inr (bts, id, rw (rssi_place, e, h, k) refl, e, h, k))
            | inr (server, k) ↦ elim (Option-cases server.core_cpu) [
              | inl l ↦ inl (
                id,
                rw (rssi_place, e, h, k, l) refl,
                inl (bts, server, e, h, k, λ m. ground arith),
              )
              | inr (cores, l) ↦ elim (Bool-cases (eqb cores 0)) [
                | inr positive ↦ inl (
                  id,
                  rw (rssi_place, e, h, k, l, positive) refl,
                  inl (bts, server, e, h, k, λ m. ground arith),
                )
                | inl zero_cores ↦ elim chosen [
                  | inl (n, f, g) ↦ inl (n, rw (rssi_place, e, h, k, l, zero_cores, f) refl, inr g)
                  | inr (f, g) ↦ inr (inl (rw (rssi_place, e, h, k, l, zero_cores, f) refl, g))
                ]
              ]
            ]
          ]
        ]
      ]
