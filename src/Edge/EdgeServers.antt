-- ===== src/Edge/EdgeServers.antt =====
-- edge_servers.py: the neighbours that an edge server knows, one entry for each server name.
pub mod Laws
use mec_measurements.Prelude.{
  String, ◌≡◌, Option, none, some, Bool, true, false, List, [], ◌∷◌, ◌++◌, ◌==◌, map, ℕ, find,
  find_index, set, delete_at, if◌then◌else◌,
}
use mathlib.Core.Option

-- A JSON object of the UPDATED_SERVERS message; `bs` is absent where the server has no BTS.
pub record ServerInfo : Type 0 where
  pub server_name : String
  pub ip : String
  pub distance : ℕ
  pub bs : Option String

abbrev pub EdgeServers : Type 0
EdgeServers = List ServerInfo

-- s['server_name'] == name
abbrev pub named : String → ServerInfo → Bool
named name s = s.server_name == name

pub find_index_server : EdgeServers → ServerInfo → Option ℕ
find_index_server servers server_info = find_index (named server_info.server_name) servers

pub add_new_server : EdgeServers → ServerInfo → EdgeServers
unfolding find_index_server
add_new_server servers server_info = elim (find_index_server servers server_info) [
  | none ↦ servers ++ server_info ∷ []
  | some _ ↦ servers
]

pub remove_server : EdgeServers → ServerInfo → EdgeServers
unfolding find_index_server
remove_server servers server_info = elim (find_index_server servers server_info) [
  | none ↦ servers
  | some i ↦ delete_at servers i
]

pub get_server_info : EdgeServers → String → Option ServerInfo
get_server_info servers name = find (named name) servers

pub get_ip_servers : EdgeServers → List String
get_ip_servers servers = map (λ s. s.ip) servers

pub get_name_servers : EdgeServers → List String
get_name_servers servers = map (λ s. s.server_name) servers

pub get_server_name_from_ip : EdgeServers → String → Option String
get_server_name_from_ip servers ip =
    Option.map (λ (s : ServerInfo). s.server_name) (find (λ s. s.ip == ip) servers)

pub update_server : EdgeServers → ServerInfo → EdgeServers
unfolding find_index_server
update_server servers server_info = elim (find_index_server servers server_info) [
  | none ↦ servers ++ server_info ∷ []
  | some idx ↦ set servers idx server_info
]

-- The loop of update_my_neighbors: the servers and `is_registered`.
pub update_my_neighbors : EdgeServers × Bool → String → List ServerInfo → EdgeServers × Bool
update_my_neighbors (servers, is_registered) me [] = (servers, is_registered)
update_my_neighbors (servers, is_registered) me (s ∷ rest) =
    update_my_neighbors
      (if s.server_name == me then (servers, true) else (update_server servers s, is_registered)) me
      rest
