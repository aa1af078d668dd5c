-- ===== src/Edge/EdgeServices.antt =====
-- edge_services.py: the services that run on an edge server and the users that it has seen.
pub mod Laws
use mec_measurements.Prelude.{
  String, Option, none, some, Bool, true, false, List, [], ◌∷◌, ◌++◌, ◌==◌, ◌&&◌, map, ℕ, find,
  find_index, filter, any, set, delete_at, if◌then◌else◌,
}
use mec_measurements.Edge.MigrateNode.{MigrateNode, get_container_name, get_container_img}

pub record EdgeServices : Type 0 where
  pub services : List MigrateNode
  pub users : List String

pub empty : EdgeServices
empty = record { services = []; users = [] }

-- s.service_name == service_name and s.end_user == user_name
abbrev pub keyed : String → String → MigrateNode → Bool
keyed service_name user_name s = s.service_name == service_name && s.end_user == user_name

pub is_associated_user : EdgeServices → String → Bool
is_associated_user es user_name = any (λ u. u == user_name) es.users

pub add_service : EdgeServices → MigrateNode → EdgeServices
unfolding is_associated_user
add_service es service = record {
  services = es.services ++ service ∷ [];
  users =
      if is_associated_user es service.end_user
      then es.users
      else es.users ++ service.end_user ∷ [];
}

pub find_index_service : EdgeServices → MigrateNode → Option ℕ
find_index_service es service = find_index (keyed service.service_name service.end_user) es.services

pub remove_service : EdgeServices → MigrateNode → EdgeServices
unfolding find_index_service
remove_service es service = elim (find_index_service es service) [
  | none ↦ es
  | some i ↦ record es { services = delete_at es.services i }
]

pub update_service : EdgeServices → MigrateNode → EdgeServices
unfolding find_index_service add_service
update_service es service = elim (find_index_service es service) [
  | none ↦ add_service es service
  | some i ↦ record es { services = set es.services i service }
]

pub get_users_from_service : EdgeServices → String → List String
get_users_from_service es service_name =
    map (λ s. s.end_user) (filter (λ s. s.service_name == service_name) es.services)

pub get_services_from_user : EdgeServices → String → List MigrateNode
get_services_from_user es user_name = filter (λ s. s.end_user == user_name) es.services

unfoldable pub get_service : EdgeServices → String → String → Option MigrateNode
get_service es user_name service_name = find (keyed service_name user_name) es.services

pub get_services_with_server : EdgeServices → String → List MigrateNode
get_services_with_server es server_name = filter (λ s. s.server_name == server_name) es.services

pub get_containers : EdgeServices → List (String × Option String)
unfolding get_container_name get_container_img
get_containers es = map (λ s. (get_container_name s, get_container_img s)) es.services
