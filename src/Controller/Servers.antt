-- ===== src/Controller/Servers.antt =====
-- What the controller hears of edge servers (centralized_controller.py): their registration, their
-- monitors and their loss. A handler takes the decoded payload.
pub mod Laws
pub mod Owned
use mec_measurements.Prelude.{ℕ, String, Option, none, some, List, [], ◌∷◌, ◌==◌, if◌then◌else◌}
use mec_measurements.Platform.{Platform, Real}
use mec_measurements.Effects.{
  Result, return, raise, attribute_error, Action, needed, modify, skip, ◌>>=◌, ◌>>◌,
}
use mec_measurements.Database.Rows.{ServiceInfo, EndUserInfo, BtsInfo, DbCentral}
use mec_measurements.Database.Queries.{get_json, user_of, bts_info_of}
use mec_measurements.Database.Servers.{
  Registration, register_server, get_info_all_servers, remove_server, get_service_with_server,
  get_server_name_from_ip, update_server_monitor, update_network_monitor,
}
use mec_measurements.Controller.State.{redeploy, updated_servers, Controller, publish}
use mec_measurements.Controller.Discovery.{Place}

module _ ⦃p : Platform⦄ where
  unfoldable pub publish_list_servers : Controller → Controller
  publish_list_servers c = publish (updated_servers (get_info_all_servers c.db)) c

  unfoldable pub process_edge_register : Registration → Controller → Controller
  unfolding publish_list_servers
  process_edge_register r c = publish_list_servers (record c { db = register_server r c.db })

  -- A measurement between two servers at the time `now`; the topic names the server that reports it.
  pub process_edge_monitor :
      ℕ
      → (server_in_topic src_ip dst_ip : String) → (latency bw : Real)
      → Action Controller (Unit {0})
  process_edge_monitor now server_in_topic src_ip dst_ip latency bw = do
    server ← λ c. (get_server_name_from_ip c.db src_ip, c)
    dst_server ← λ c. (get_server_name_from_ip c.db dst_ip, c)
    elim server [
      | none ↦ skip
      | some name ↦
          if server_in_topic == name
          then modify (λ c. record c {
            db = update_network_monitor now (some name) dst_server latency bw c.db;
          })
          else skip
    ]

  unfoldable pub process_monitor_server_status :
      String
      → (cpu_max cpu_cores : Option ℕ) → (mem_total mem_free disk_total disk_free : Option Real)
      → Controller
      → Controller
  process_monitor_server_status name cpu_max cpu_cores mem_total mem_free disk_total disk_free c =
      record c {
        db =
            update_server_monitor name cpu_max cpu_cores mem_total mem_free disk_total disk_free
              c.db;
      }

  module _ (place_service : Place) where
    -- The body of the loop of process_edge_notification.
    pub redeploy_service : ServiceInfo → Action Controller (Unit {0})
    redeploy_service s = do
      user ← λ c. needed attribute_error (user_of c.db s) c
      bts ← λ c. needed attribute_error (bts_info_of c.db user) c
      deployed_server_name ← λ c. (place_service c.db user.name s.name bts.name bts.bssid, c)
      modify λ c. publish (redeploy deployed_server_name (get_json c.db s)) c

    pub redeploy_services : List ServiceInfo → Action Controller (Unit {0})
    unfolding redeploy_service
    redeploy_services [] = skip
    redeploy_services (s ∷ rest) = redeploy_service s >> redeploy_services rest

    pub process_edge_notification : String → Action Controller (Unit {0})
    unfolding redeploy_services
    process_edge_notification server_name = do
      redeploying_services ← λ c. (return (get_service_with_server c.db server_name), c)
      redeploy_services redeploying_services
      modify λ c. record c { db = remove_server server_name c.db }
