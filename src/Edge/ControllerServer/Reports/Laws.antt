-- ===== src/Edge/ControllerServer/Reports/Laws.antt =====
-- What an edge server knows of the others after it heard of them (edge_controller.py).
use mec_measurements.Prelude.{
  String, true, false, none, List, [], ◌∷◌, ◌++◌, ◌≡◌, ◌==◌, if◌then◌else◌, or_else, any, arith,
  eq_iff, Option-cases, inl, inr,
}
use mec_measurements.Edge.EdgeServers.{ServerInfo, named, get_server_info, get_ip_servers}
use mec_measurements.Edge.EdgeServers.Laws.{
  IsUnique, latest, get_server_info-remove_server, get_server_info-update_my_neighbors,
  is_registered-update_my_neighbors, get_server_info_sound,
}
use mec_measurements.Edge.ControllerServer.State.{Docker, registers, ControllerServer}
use mec_measurements.Edge.ControllerServer.Reports.{process_neighbor_off, process_updated_servers}

module _ {d : Docker} where
  -- After UPDATED_SERVERS the server is ready, has told its network monitor the addresses of its
  -- table, and has registered at the centre exactly if the message does not name it; a lookup of a
  -- name other than its own gives the last entry of the message, and what it gave before where the
  -- message has none.
  pub process_updated_servers_lem :
      (all : List ServerInfo) (name : String) (s : ControllerServer d)
      → let me = s.server_info.server_name in
        let after = process_updated_servers all s in
        (get_server_info after.my_neighbors name
          ≡ or_else (latest me name all) (get_server_info s.my_neighbors name))
        × (after.ready ≡ true)
        × (after.mon_queue_network ≡ s.mon_queue_network ++ get_ip_servers after.my_neighbors ∷ [])
        × (after.sent
            ≡ (if any (named me) all then s.sent else s.sent ++ registers s.server_info ∷ []))
  unfolding process_updated_servers
  process_updated_servers_lem all name s =
      let me = s.server_info.server_name in
      let table = get_server_info-update_my_neighbors me all s.my_neighbors false name in
      let told = is_registered-update_my_neighbors me all s.my_neighbors false in
      (ground (arith, table), ground arith, ground arith, ground (arith, told))

  -- A neighbour that went off is not found any more, and every other one as before.
  pub process_neighbor_off_lem :
      (server_name name : String) (s : ControllerServer d)
      → IsUnique s.my_neighbors
      → get_server_info (process_neighbor_off server_name s).my_neighbors name
        ≡ (if server_name == name then none else get_server_info s.my_neighbors name)
  unfolding process_neighbor_off
  process_neighbor_off_lem server_name name s u =
      elim (Option-cases (get_server_info s.my_neighbors server_name)) [
        | inl e ↦ ground (arith, eq_iff server_name name)
        | inr (info, e) ↦ ground (
          arith,
          get_server_info_sound s.my_neighbors server_name info e,
          get_server_info-remove_server s.my_neighbors info name u,
        )
      ]
