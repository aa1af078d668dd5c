-- ===== src/Database/History.antt =====
-- The methods of DbCentral that read the tables of the reports (central_database.py): bandwidth,
-- round-trip times and delays as averages of recent records, and the sizes of services and servers.
pub mod Laws
use mathlib.Core.Option
use mec_measurements.Prelude.{
  ℕ, ◌+◌, ◌*◌, ◌^◌, String, Bool, true, false, ◌&&◌, Option, none, some, List, [], ◌∷◌, ◌==◌, map,
  filter, length, get_or, if◌then◌else◌,
}
use mec_measurements.Prelude.Lists.Newest.{newest_first, limit}
use mec_measurements.Platform.{Platform, Real}
use mec_measurements.Effects.{
  Result, return, raise, attribute_error, type_error, zero_division_error,
}
use mec_measurements.Database.Rows.{
  ServiceInfo, EndUserInfo, EdgeServerInfo, BtsInfo, EndUserService, NetworkRecord, DbCentral,
}
use mec_measurements.Database.Queries.{get_service, get_server}

-- column == value, where NULL is a value too
abbrev pub equals : Option String → Option String → Bool
equals none none = true
equals none (some v) = false
equals (some u) none = false
equals (some u) (some v) = u == v

module _ ⦃p : Platform⦄ where
  open p use {of_ℕ, plus, over, first, rows}

  abbrev pub sum_from : Real → List Real → Real
  sum_from acc [] = acc
  sum_from acc (x ∷ xs) = sum_from (plus acc x) xs

  -- sum(results) / len(results)
  unfoldable pub average : List Real → Real
  average results = over (sum_from (of_ℕ 0) results) (of_ℕ (length results))

  -- The records of a pair of nodes.
  unfoldable pub between : DbCentral → (source dest : Option String) → List NetworkRecord
  between db source dest =
      filter (λ r. equals r.src_node source && equals r.dest_node dest) db.network_monitor

  unfoldable pub recent : DbCentral → (source dest : Option String) → ℕ → List NetworkRecord
  recent db source dest size = limit size (newest_first (λ r. r.timestamp) (between db source dest))

  abbrev pub mean_bw : List NetworkRecord → Real
  mean_bw [] = over (of_ℕ 1) (of_ℕ 1000)
  mean_bw (r ∷ rs) = average (map (λ r. r.bw) (r ∷ rs))

  abbrev pub mean_rtt : List NetworkRecord → Result Real
  mean_rtt [] = raise zero_division_error
  mean_rtt (r ∷ rs) = return (average (map (λ r. r.latency) (r ∷ rs)))

  unfoldable pub query_bw : DbCentral → (source dest : Option String) → ℕ → Real
  query_bw db source dest size = mean_bw (recent db source dest size)

  unfoldable pub query_rtt : DbCentral → (source dest : Option String) → ℕ → Result Real
  query_rtt db source dest size = mean_rtt (recent db source dest size)

  unfoldable pub query_bts_to_edge_bw : DbCentral → (bts server : String) → Real
  query_bts_to_edge_bw db bts server = elim (first db.btss bts) [
    | none ↦ of_ℕ 0
    | some b ↦
        if equals b.server_id (some server)
        then of_ℕ (10 ^ 9)
        else query_bw db b.server_id (some server) 10
  ]

  unfoldable pub query_bts_to_edge_rtt : DbCentral → (bts server : String) → Result Real
  query_bts_to_edge_rtt db bts server = elim (first db.btss bts) [
    | none ↦ return (of_ℕ (10 ^ 10))
    | some b ↦
        if equals b.server_id (some server)
        then return (of_ℕ 0)
        else query_rtt db b.server_id (some server) 10
  ]

  abbrev pub average_or_none : List Real → Option Real
  average_or_none [] = none
  average_or_none (x ∷ xs) = some (average (x ∷ xs))

  unfoldable pub query_process_delay : DbCentral → (user bts server : String) → ℕ → Option Real
  query_process_delay db user bts server size = average_or_none (
      map (λ (r : EndUserService). r.proc_delay)
        (limit size (
          filter (λ r. r.user_id == user && r.ssid == bts && r.server_name == server)
            db.user_service)))

  unfoldable pub query_eu_data_size : DbCentral → String → Option Real
  query_eu_data_size db user = average_or_none (
      map (λ (r : EndUserService). of_ℕ r.request_size)
        (limit 10
          (newest_first (λ r. r.timestamp) (filter (λ r. r.user_id == user) db.user_service))))

  unfoldable pub query_server_size : DbCentral → String → Option Real
  query_server_size db server =
      Option.bind (first db.servers server) (λ (s : EdgeServerInfo). s.disk)

  unfoldable pub query_server_memory : DbCentral → String → Option Real
  query_server_memory db server =
      Option.bind (first db.servers server) (λ (s : EdgeServerInfo). s.ram)

  -- The columns of a user's service; 0 for a user who has none.
  unfoldable pub query_average_cpu_container : DbCentral → String → Option Real
  query_average_cpu_container db user = elim (get_service db user) [
    | none ↦ some (of_ℕ 0)
    | some service ↦ service.cpu
  ]

  unfoldable pub query_size_container : DbCentral → String → Option ℕ
  query_size_container db user = elim (get_service db user) [
    | none ↦ some 0
    | some service ↦ service.size
  ]

  unfoldable pub query_memory_container : DbCentral → String → Option ℕ
  query_memory_container db user = elim (get_service db user) [
    | none ↦ some 0
    | some service ↦ service.mem
  ]

  abbrev pub product : Option ℕ → Option ℕ → Result ℕ
  product (some m) (some n) = return (m * n)
  product m n = raise type_error

  unfoldable pub query_full_capacities : DbCentral → String → Result ℕ
  query_full_capacities db server_name = elim (get_server db server_name) [
    | none ↦ raise attribute_error
    | some server ↦ product server.max_cpu server.core_cpu
  ]

  unfoldable pub query_capacities : DbCentral → String → Option ℕ
  query_capacities db name = Option.bind (first db.servers name) (λ (s : EdgeServerInfo). s.max_cpu)

  unfoldable pub query_phi : DbCentral → String → Result (Option Real)
  query_phi db server = elim (get_server db server) [
    | none ↦ raise attribute_error
    | some s ↦ return s.phi
  ]

  unfoldable pub query_rho : DbCentral → String → Result (Option Real)
  query_rho db server = elim (get_server db server) [
    | none ↦ raise attribute_error
    | some s ↦ return s.rho
  ]

  -- register_bts(name=..., bssid=..., passwd=..., x=..., y=...), with its defaults
  unfoldable pub register_bts :
      (name bssid passwd : Option String) → (x y : Option Real) → DbCentral → DbCentral
  register_bts none bssid passwd x y db = db
  register_bts (some name) bssid passwd x y db = elim (first db.btss name) [
    | some b ↦ db
    | none ↦ record db {
      btss = p.save db.btss name (record {
        name = name;
        ip = none;
        server_id = none;
        bssid = bssid;
        pwd = get_or passwd "";
        x = some (get_or x (of_ℕ 0));
        y = some (get_or y (of_ℕ 0));
      });
    }
  ]

  unfoldable pub update_eu_position : String → (x y vx vy a b : Real) → DbCentral → DbCentral
  update_eu_position user_name x y vx vy a b db = elim (first db.users user_name) [
    | none ↦ db
    | some user ↦ record db {
      users = p.save db.users user_name (record user {
        x = some x;
        y = some y;
        velocity_x = some vx;
        velocity_y = some vy;
        a = some a;
        b = some b;
      });
    }
  ]
