-- ===== src/Examples/Registries.antt =====
-- The theorems on the registries of an edge server, applied.
use mec_measurements.Prelude.{
  String, false, none, List, [], ◌∷◌, ◌≡◌, refl, ◌==◌, ◌≤◌, or_else, count_if, arith, eq_iff,
  Bool-cases, inl, inr,
}
use mathlib.Core.Path.{subst}
use mec_measurements.Edge.EdgeServers.{
  ServerInfo, EdgeServers, named, get_server_info, add_new_server, update_server, remove_server,
  update_my_neighbors,
}
use mec_measurements.Edge.EdgeServers.Laws as ServerLaws
use mec_measurements.Edge.EdgeServices.{EdgeServices, add_service, update_service, remove_service}
use mec_measurements.Edge.EdgeServices.Laws as ServiceLaws
use mec_measurements.Examples.{a_node}

abbrev pub entry : (name ip : String) → ServerInfo
entry name ip = record { server_name = name; ip = ip; distance = 1; bs = none }

abbrev pub two_servers : EdgeServers
two_servers = entry "edge01" "10.0.0.1" ∷ entry "edge02" "10.0.0.2" ∷ []

abbrev pub message : List ServerInfo
message = entry "edge02" "10.0.0.9" ∷ entry "me" "10.0.0.3" ∷ entry "edge04" "10.0.0.4" ∷ []

pub two_servers-IsUnique : ServerLaws.IsUnique two_servers
two_servers-IsUnique name = elim (Bool-cases ("edge01" == name)) [
  | inl e ↦
      subst (λ n. count_if (named n) two_servers ≤ 1) ((eq_iff "edge01" name).0 e) (omega arith)
  | inr e ↦ elim (Bool-cases ("edge02" == name)) [
    | inl f ↦ rw (e, f) (omega arith)
    | inr f ↦ rw (e, f) (omega arith)
  ]
]

abbrev pub a_registry : EdgeServices
a_registry = record { services = a_node ∷ []; users = "u" ∷ [] }

pub a_registry-IsUnique : ServiceLaws.IsUnique a_registry
a_registry-IsUnique service user = ground arith

get_server_info-update_my_neighbors_example :
    get_server_info (update_my_neighbors (two_servers, false) "me" message).0 "edge02"
    ≡ or_else (ServerLaws.latest "me" "edge02" message) (get_server_info two_servers "edge02")
get_server_info-update_my_neighbors_example =
    ServerLaws.get_server_info-update_my_neighbors "me" message two_servers false "edge02"

operations-IsUnique_example :
    ServerLaws.IsUnique (add_new_server two_servers (entry "edge03" ""))
    × ServerLaws.IsUnique (update_server two_servers (entry "edge03" ""))
    × ServerLaws.IsUnique (remove_server two_servers (entry "edge03" ""))
    × ServerLaws.IsUnique (update_my_neighbors (two_servers, false) "me" message).0
operations-IsUnique_example =
    ServerLaws.operations-IsUnique "me" message false (entry "edge03" "") two_servers
      two_servers-IsUnique

operations-IsCovered_example :
    ServiceLaws.IsCovered (add_service a_registry a_node)
    × ServiceLaws.IsCovered (update_service a_registry a_node)
    × ServiceLaws.IsCovered (remove_service a_registry a_node)
operations-IsCovered_example = ServiceLaws.operations-IsCovered a_registry a_node (refl, tt)
