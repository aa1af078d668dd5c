-- ===== src/Controller/Discovery/Owned.antt =====
-- The plans that the controller stores (`is_owned`), over the requests and the leaving of users
-- (centralized_controller.py).
use Prim.Native.String.{◌++◌}
use mec_measurements.Prelude.{
  String, true, Option, none, some, ◌≡◌, ◌==◌, arith, eq_iff, Bool-cases, Option-cases, inl, inr,
}
use mec_measurements.Platform.{Platform}
use mec_measurements.Effects.{Result, return, raise, and_then}
use mec_measurements.Database.Rows.{ServiceInfo}
use mec_measurements.Database.Queries.{get_service, get_bts}
use mec_measurements.Controller.State.{Discovery, Controller}
use mec_measurements.Controller.Plans.Owned.{is_owned}
use mec_measurements.Controller.Discovery.{
  Place, destroy_service, deploy_new, discover, process_discovery, process_eu_notification,
}

module _ ⦃p : Platform⦄ (u : String) where
  destroy_service-is_owned :
      (service : ServiceInfo) (c : Controller)
      → is_owned u c ≡ true
      → is_owned u (destroy_service service c).1 ≡ true
  unfolding destroy_service
  destroy_service-is_owned service c h = ground arith

  deploy_new-is_owned :
      (place_service : Place) (request : Discovery) (name : String) (c : Controller)
      → is_owned u c ≡ true
      → is_owned u (deploy_new place_service request name c).1 ≡ true
  unfolding deploy_new
  deploy_new-is_owned place_service request name c h = ground (arith, eq_iff request.end_user u)

  discover-is_owned :
      (place_service : Place) (request : Discovery) (name : String) (found : Option ServiceInfo)
      (c : Controller)
      → is_owned u c ≡ true
      → is_owned u (discover place_service request name found c).1 ≡ true
  unfolding discover
  discover-is_owned place_service request name none c h =
      deploy_new-is_owned place_service request name c h
  discover-is_owned place_service request name (some found) c h =
      elim (Bool-cases (found.name == name)) [
        | inl same ↦ ground arith
        | inr other ↦ rw other (
            after (destroy_service found c) place_service request name
              (destroy_service-is_owned found c h))
      ]
    where
      after :
          (r : Result (Unit {0}) × Controller) (place_service : Place) (request : Discovery)
          (name : String)
          → is_owned u r.1 ≡ true
          → is_owned u (and_then r.0 (λ _. deploy_new place_service request name) r.1).1 ≡ true
      after (return tt, d) place_service request name k =
          deploy_new-is_owned place_service request name d k
      after (raise e, d) place_service request name k = k

  pub process_discovery-is_owned :
      (place_service : Place) (json : Discovery) (c : Controller)
      → is_owned u c ≡ true
      → is_owned u (process_discovery place_service json c).1 ≡ true
  unfolding process_discovery
  process_discovery-is_owned place_service json c h = elim (Option-cases (get_bts c.db json.ssid)) [
    | inl e ↦ rw (process_discovery, e) h
    | inr (bts, e) ↦
        rw (process_discovery, e)
          (discover-is_owned place_service (record json { migrate_method = c.migrate_method })
            (json.service_name ++ json.end_user) (get_service c.db json.end_user) c h)
  ]

  pub process_eu_notification-is_owned :
      (end_user : String) (c : Controller)
      → is_owned u c ≡ true
      → is_owned u (process_eu_notification end_user c).1 ≡ true
  unfolding process_eu_notification
  process_eu_notification-is_owned end_user c h = elim (Option-cases (get_service c.db end_user)) [
    | inl e ↦ rw (process_eu_notification, e) h
    | inr (service, e) ↦ rw (process_eu_notification, e) (destroy_service-is_owned service c h)
  ]
