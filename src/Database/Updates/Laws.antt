-- ===== src/Database/Updates/Laws.antt =====
-- What the look-ups of central_database.py find after its updates.
use mec_measurements.Prelude.{String, none, some, ◌≡◌, refl, arith, eq_refl}
use mathlib.Core.Option
use mec_measurements.Platform.{Platform}
use mec_measurements.Effects.{return}
use mec_measurements.Database.Rows.{ServiceInfo, EndUserInfo, DbCentral}
use mec_measurements.Database.Queries.{get_service, service_of}
use mec_measurements.Database.Updates.{
  save_service, save_user, initialize_service, insert_service, link_service, blank_service,
}

module _ ⦃p : Platform⦄ where
  open p use {first, first-save, first-delete}

  get_service-linked :
      (db : DbCentral) (u key : String) (user : EndUserInfo) (s : ServiceInfo)
      → first db.users u ≡ some user
      → user.service_id ≡ some key
      → first db.services key ≡ some s
      → get_service db u ≡ some s
  unfolding get_service service_of Option.bind
  get_service-linked db u key user s e k f = rw (e, k, f) refl

  -- A service that is initialized for a user who is stored, under a name that is free, is the one
  -- that is found for the user: it has the given name and server, and the state of a service that is
  -- not yet deployed.
  pub get_service-initialize_service :
      (name server u : String) (user : EndUserInfo) (db : DbCentral)
      → first db.services name ≡ none
      → first db.users u ≡ some user
      → user.name ≡ u
      → (d : DbCentral) × (s : ServiceInfo) × (initialize_service name server u db ≡ (return tt, d))
        × (get_service d u ≡ some s)
        × (s.name ≡ name)
        × (s.server_name ≡ server)
        × (s.state ≡ "init")
  unfolding initialize_service insert_service link_service
  get_service-initialize_service name server u user db free there named =
      let s = blank_service name server "init" in
      let linked = record user { service_id = some name } in
      let d = save_user linked (save_service s db) in
      (
        d,
        s,
        ground arith,
        get_service-linked d u name linked s
            (ground (arith, eq_refl u, first-save db.users user.name linked u)) refl
            (ground (arith, eq_refl name, first-save db.services name s name)),
        refl,
        refl,
        refl,
      )
