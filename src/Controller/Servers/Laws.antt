-- ===== src/Controller/Servers/Laws.antt =====
-- The registration of an edge server, as both sides see it, and its loss (centralized_controller.py).
use mec_measurements.Prelude.{
  String, Bool, true, false, none, some, List, [], ◌∷◌, ◌++◌, map, All, ap, fun_ext, ◌≡◌, ◌∙◌, refl,
  ◌==◌, any, any-map, arith, eq_refl, if◌then◌else◌,
}
use mathlib.Core.List.{append_assoc, append-nil}
use mec_measurements.Platform.{Platform}
use mec_measurements.Effects.{return}
use mec_measurements.Database.Rows.{ServiceInfo, EndUserInfo, BtsInfo, DbCentral}
use mec_measurements.Database.Queries.{get_json, user_of, bts_info_of}
use mec_measurements.Database.Servers.{
  ServerEntry, Registration, register_server, get_info_all_servers, get_service_with_server,
}
use mec_measurements.Database.Servers.Laws.{
  IsNamed, get_info_all_servers-register_server, remove_server_lem,
}
use mec_measurements.Edge.EdgeServers.{ServerInfo, named}
use mec_measurements.Edge.ControllerServer.State.{Docker, registers, ControllerServer}
use mec_measurements.Edge.ControllerServer.Reports.{process_updated_servers}
use mec_measurements.Edge.ControllerServer.Reports.Laws.{process_updated_servers_lem}
use mec_measurements.Controller.State.{Message, redeploy, updated_servers, Controller, publish}
use mec_measurements.Controller.Discovery.{Place}
use mec_measurements.Controller.Servers.{
  publish_list_servers, process_edge_register, redeploy_service, redeploy_services,
  process_edge_notification,
}

module _ ⦃p : Platform⦄ where
  open p use {first}

  -- What is sent where the test holds.
  sends :
      {A : Type 0} {x y : A} (z : A) (test : Bool)
      → test ≡ true
      → x ≡ (if test then y else z)
      → x ≡ y
  sends z true e h = h
  sends z false e h = absurd (ground arith)

  -- An edge server that registers finds itself in the list that the controller then sends to all:
  -- its next UPDATED_SERVERS message makes it ready and sends no registration again. `decode` is the
  -- reading of an entry of the JSON list, which keeps the name.
  pub process_edge_register-ends :
      {d : Docker} (decode : ServerEntry → ServerInfo)
      → ((entry : ServerEntry) → (decode entry).server_name ≡ entry.server_name)
      → (r : Registration) (c : Controller) (s : ControllerServer d) → IsNamed c.db
      → s.server_info.server_name ≡ r.name
      → (entries : List ServerEntry) × ((process_edge_register r c).published
          ≡ c.published ++ updated_servers entries ∷ [])
        × ((process_updated_servers (map decode entries) s).sent ≡ s.sent)
        × ((process_updated_servers (map decode entries) s).ready ≡ true)
  unfolding process_edge_register publish_list_servers
  process_edge_register-ends decode keeps r c s rows_named same =
      let entries = get_info_all_servers (register_server r c.db) in
      let lem = process_updated_servers_lem (map decode entries) r.name s in
      let listed : any (named s.server_info.server_name) (map decode entries) ≡ true =
        any-map (named s.server_info.server_name) decode entries
        ∙ ap (λ test. any test entries)
            (fun_ext (λ entry. rw (same) (ap (λ n. n == r.name) (keeps entry))))
        ∙ get_info_all_servers-register_server r c.db rows_named in
      (
        entries,
        refl,
        sends (s.sent ++ registers s.server_info ∷ [])
            (any (named s.server_info.server_name) (map decode entries)) listed lem.3,
        lem.1,
      )

  module _ (place_service : Place) where
    -- The message of a service: its user stands at a stored base station, and place_service gives the
    -- server.
    pub record Placed (db : DbCentral) (s : ServiceInfo) (message : Message) : Type 0 where
      pub user : EndUserInfo
      pub bts : BtsInfo
      pub target : String
      pub has_user : user_of db s ≡ some user
      pub has_bts : bts_info_of db user ≡ some bts
      pub is_placed : place_service db user.name s.name bts.name bts.bssid ≡ return target
      pub is_message : message ≡ redeploy target (get_json db s)

    redeploy_service-eq :
        (s : ServiceInfo) (message : Message) (c : Controller)
        → Placed c.db s message
        → redeploy_service place_service s c ≡ (return tt, publish message c)
    unfolding redeploy_service
    redeploy_service-eq s message c h =
        rw (redeploy_service, h.has_user, h.has_bts, h.is_placed, h.is_message) refl

    redeploy_services-eq :
        (messages : ServiceInfo → Message) (services : List ServiceInfo) (c : Controller)
        → All (λ s. Placed c.db s (messages s)) services
        → redeploy_services place_service services c
          ≡ (return tt, record c { published = c.published ++ map messages services })
    unfolding redeploy_services
    redeploy_services-eq messages [] c h = rw (append-nil c.published) refl
    redeploy_services-eq messages (s ∷ rest) c h =
        rw
          (
            redeploy_services,
            redeploy_service-eq s (messages s) c h.0,
            redeploy_services-eq messages rest (publish (messages s) c) h.1,
          )
          (rw (append_assoc c.published (messages s ∷ []) (map messages rest)) refl)

    -- When a server is lost whose services can all be placed, one DEPLOY message for each of them is
    -- published, in the order of the database, to the server that place_service gives for its user's
    -- base station before the lost server is deleted, and nothing else; afterwards the lost server is
    -- not found.
    pub process_edge_notification-redeploys :
        (server_name : String) (messages : ServiceInfo → Message) (c : Controller)
        → IsNamed c.db
        → All (λ s. Placed c.db s (messages s)) (get_service_with_server c.db server_name)
        → ((process_edge_notification place_service server_name c).1.published
            ≡ c.published ++ map messages (get_service_with_server c.db server_name))
          × (first (process_edge_notification place_service server_name c).1.db.servers server_name
              ≡ none)
    unfolding process_edge_notification
    process_edge_notification-redeploys server_name messages c rows_named h =
        rw
          (
            process_edge_notification,
            redeploy_services-eq messages (get_service_with_server c.db server_name) c h,
          )
          (
            refl,
            ground (
              arith,
              remove_server_lem server_name server_name c.db rows_named,
              eq_refl server_name,
            ),
          )
