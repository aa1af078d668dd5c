-- ===== src/Edge/ControllerServer/Reports.antt =====
-- What an edge server learns of its neighbours and reports of a migration (edge_controller.py).
pub mod Laws
use mec_measurements.Prelude.{
  String, Bool, true, false, Option, none, some, List, [], ◌∷◌, ◌++◌, ◌==◌, if◌then◌else◌,
}
use mec_measurements.Edge.EdgeServers.{
  ServerInfo, get_server_info, remove_server, update_my_neighbors, get_ip_servers,
  get_server_name_from_ip,
}
use mec_measurements.Edge.ControllerServer.State.{
  Docker, MigrationReport, registers, source_report, dest_report, ControllerServer, send,
}

module _ {d : Docker} where
  pub register_to_centre : ControllerServer d → ControllerServer d
  register_to_centre s = send (registers s.server_info) s

  pub process_neighbor_off : String → ControllerServer d → ControllerServer d
  process_neighbor_off server_name s = elim (get_server_info s.my_neighbors server_name) [
    | none ↦ s
    | some server_info ↦ record s { my_neighbors = remove_server s.my_neighbors server_info }
  ]

  pub process_updated_servers : List ServerInfo → ControllerServer d → ControllerServer d
  unfolding register_to_centre
  process_updated_servers all_servers s =
      let (my_neighbors, is_registered) =
        update_my_neighbors (s.my_neighbors, false) s.server_info.server_name all_servers in
      let updated : ControllerServer d = record s { my_neighbors = my_neighbors } in
      let told : ControllerServer d =
        if is_registered then updated else register_to_centre updated in
      record told {
        ready = true;
        mon_queue_network = told.mon_queue_network ++ get_ip_servers my_neighbors ∷ [];
      }

  pub source_report_cb : (dest_ip service : String) → ControllerServer d → ControllerServer d
  source_report_cb dest_ip service s =
      send
        (source_report (record {
          source = some s.server_info.server_name;
          dest = get_server_name_from_ip s.my_neighbors dest_ip;
          service = service;
        }))
        s

  pub dest_report_cb : (source_ip service : String) → ControllerServer d → ControllerServer d
  dest_report_cb source_ip service s =
      send
        (dest_report (record {
          source = get_server_name_from_ip s.my_neighbors source_ip;
          dest = some s.server_info.server_name;
          service = service;
        }))
        s
