-- ===== src/Controller/Servers/Owned.antt =====
-- The plans that the controller stores (`is_owned`), over what it hears of edge servers
-- (centralized_controller.py).
use mec_measurements.Prelude.{ℕ, String, true, List, [], ◌∷◌, ◌≡◌, arith}
use mec_measurements.Platform.{Platform, Real}
use mec_measurements.Effects.{modify}
use mec_measurements.Database.Rows.{ServiceInfo}
use mec_measurements.Controller.State.{Controller}
use mec_measurements.Database.Servers.{get_service_with_server, remove_server}
use mec_measurements.Controller.Plans.Loops.{and_then-keeps}
use mec_measurements.Controller.Plans.Owned.{is_owned}
use mec_measurements.Controller.Discovery.{Place}
use mec_measurements.Controller.Servers.{
  process_edge_monitor, redeploy_service, redeploy_services, process_edge_notification,
}

module _ ⦃p : Platform⦄ (u : String) where
  pub process_edge_monitor-is_owned :
      (now : ℕ) (server_in_topic src_ip dst_ip : String) (latency bw : Real) (c : Controller)
      → is_owned u c ≡ true
      → is_owned u (process_edge_monitor now server_in_topic src_ip dst_ip latency bw c).1 ≡ true
  unfolding process_edge_monitor
  process_edge_monitor-is_owned now server_in_topic src_ip dst_ip latency bw c h = ground arith

  module _ (place_service : Place) where
    redeploy_service-is_owned :
        (s : ServiceInfo) (c : Controller)
        → is_owned u c ≡ true
        → is_owned u (redeploy_service place_service s c).1 ≡ true
    unfolding redeploy_service
    redeploy_service-is_owned s c h = ground arith

    redeploy_services-is_owned :
        (services : List ServiceInfo) (c : Controller)
        → is_owned u c ≡ true
        → is_owned u (redeploy_services place_service services c).1 ≡ true
    unfolding redeploy_services
    redeploy_services-is_owned [] c h = h
    redeploy_services-is_owned (s ∷ rest) c h =
        let placed = redeploy_service place_service s c in
        let owned = redeploy_service-is_owned s c h in
        and_then-keeps (λ c. is_owned u c ≡ true) placed.0
          (λ _. redeploy_services place_service rest) placed.1 owned
          (λ _. redeploy_services-is_owned rest placed.1 owned)

    pub process_edge_notification-is_owned :
        (server_name : String) (c : Controller)
        → is_owned u c ≡ true
        → is_owned u (process_edge_notification place_service server_name c).1 ≡ true
    unfolding process_edge_notification
    process_edge_notification-is_owned server_name c h =
        let services = get_service_with_server c.db server_name in
        let placed = redeploy_services place_service services c in
        let owned = redeploy_services-is_owned services c h in
        and_then-keeps (λ c. is_owned u c ≡ true) placed.0
          (λ _. modify λ c. record c { db = remove_server server_name c.db }) placed.1 owned
          (λ _. owned)
