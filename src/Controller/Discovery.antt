-- ===== src/Controller/Discovery.antt =====
-- The requests and the leaving of users (centralized_controller.py): process_discovery,
-- destroy_service and process_eu_notification. `Place` is the planner's place_service.
pub mod Owned
pub mod Laws
use mec_measurements.Prelude.{String, Option, none, some, ◌==◌, if◌then◌else◌}
use Prim.Native.String.{◌++◌}
use mec_measurements.Platform.{Platform}
use mec_measurements.Effects.{
  Result, return, attribute_error, Action, needed, modify, skip, ◌>>=◌, ◌>>◌,
}
use mec_measurements.Database.Rows.{ServiceInfo, EndUserInfo, DbCentral}
use mec_measurements.Database.Queries.{get_bts, get_service, get_json, user_of, edge_server_of}
use mec_measurements.Database.Updates.{register_user, initialize_service}
use mec_measurements.Controller.Word.{init_state}
use mec_measurements.Controller.State.{Discovery, deploy, destroy, Controller, publish, set_word}
use mec_measurements.Controller.Reports.{on_db}

module _ ⦃p : Platform⦄ where
  open p use {delete}

  abbrev pub Place : Type 0
  Place = DbCentral → (end_user service_name ssid : String) → Option String → Result String

  -- db.delete_obj(user); db.delete_obj(service)
  delete_both : EndUserInfo → ServiceInfo → DbCentral → DbCentral
  delete_both user service db = record db {
    users = delete db.users user.name;
    services = delete db.services service.name;
  }

  unfoldable pub destroy_service : ServiceInfo → Action Controller (Unit {0})
  unfolding delete_both
  destroy_service service c = elim (edge_server_of c.db service) [
    | none ↦ (return tt, c)
    | some server ↦
        (do
          modify λ c. publish (destroy service.server_name (get_json c.db service)) c
          user ← λ c. needed attribute_error (user_of c.db service) c
          modify λ c. record c { db = delete_both user service c.db })
          c
  ]

  unfoldable pub process_eu_notification : String → Action Controller (Unit {0})
  unfolding destroy_service
  process_eu_notification end_user c = elim (get_service c.db end_user) [
    | none ↦ (return tt, c)
    | some service ↦ destroy_service service c
  ]

  module _ (place_service : Place) where
    -- 1. run optimization, and what follows it
    deploy_new : Discovery → String → Action Controller (Unit {0})
    deploy_new request formated_service_name = do
      deployed_server_name ← λ c.
          (place_service c.db request.end_user formated_service_name request.ssid request.bssid, c)
      on_db (modify (register_user request.end_user request.ssid))
      on_db (initialize_service formated_service_name deployed_server_name request.end_user)
      modify (set_word request.end_user init_state)
      modify (publish (deploy deployed_server_name request))

    -- What follows the test of the base station.
    discover : Discovery → String → Option ServiceInfo → Action Controller (Unit {0})
    unfolding deploy_new destroy_service
    discover request name none = deploy_new request name
    discover request name (some found) =
        if found.name == name
        then if found.state == "init"
          then skip
          else if found.state == "migration"
          then skip
          else modify (publish (deploy found.server_name request))
        else destroy_service found >> deploy_new request name

    unfoldable pub process_discovery : Discovery → Action Controller (Unit {0})
    unfolding discover
    process_discovery json c =
        let request : Discovery = record json { migrate_method = c.migrate_method } in
        elim (get_bts c.db request.ssid) [
          | none ↦ (return tt, c)
          | some bts ↦
              discover request (request.service_name ++ request.end_user)
                (get_service c.db request.end_user) c
        ]
