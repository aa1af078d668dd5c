-- ===== src/Controller/Discovery/Laws.antt =====
-- What a request or the leaving of a user does to the database (centralized_controller.py).
use mec_measurements.Prelude.{String, none, some, [], ◌∷◌, ◌++◌, ◌≡◌, arith, eq_refl}
use mec_measurements.Platform.{Platform}
use mec_measurements.Effects.{return}
use mec_measurements.Database.Rows.{ServiceInfo, EndUserInfo, EdgeServerInfo}
use mec_measurements.Database.Queries.{get_service, get_json, user_of, edge_server_of}
use mec_measurements.Controller.State.{destroy, Controller}
use mec_measurements.Controller.Discovery.{delete_both, destroy_service, process_eu_notification}

module _ ⦃p : Platform⦄ where
  open p use {first, first-save, first-delete}

  -- Where the leaving user's service runs on a server that is known and is the user's own, its server
  -- is told to destroy it, and afterwards neither the user nor the service is stored.
  pub process_eu_notification-removes :
      (end_user : String) (service : ServiceInfo) (server : EdgeServerInfo) (user : EndUserInfo)
      (c : Controller)
      → get_service c.db end_user ≡ some service
      → edge_server_of c.db service ≡ some server
      → user_of c.db service ≡ some user
      → user.name ≡ end_user
      → (d : Controller) × (process_eu_notification end_user c ≡ (return tt, d))
        × (d.published ≡ c.published ++ destroy service.server_name (get_json c.db service) ∷ [])
        × (first d.db.users end_user ≡ none)
        × (first d.db.services service.name ≡ none)
  unfolding process_eu_notification destroy_service delete_both
  process_eu_notification-removes end_user service server user c found there owner named =
      let d = (process_eu_notification end_user c).1 in
      (
        d,
        ground arith,
        ground arith,
        ground (arith, first-delete c.db.users user.name end_user, eq_refl end_user),
        ground (arith, first-delete c.db.services service.name service.name, eq_refl service.name),
      )
