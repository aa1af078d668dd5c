-- ===== src/Database/Servers.antt =====
-- The methods of DbCentral on edge servers and what is reported of them: registration, the list that
-- is sent to them, removal, and the monitors' reports.
pub mod Laws
use mec_measurements.Prelude.{
  ℕ, ◌+◌, ◌^◌, String, Bool, true, false, Option, none, some, List, [], ◌∷◌, ◌++◌, ◌==◌, map,
  filter, find, if◌then◌else◌,
}
use Prim.Native.String.{◌++◌ as str_append}
use mathlib.Core.Option
use mec_measurements.Platform.{Platform, Real}
use mec_measurements.Effects.{Result, return, raise, attribute_error, multiple_results, Action}
use mec_measurements.Database.Rows.{
  ServiceInfo, EdgeServerInfo, BtsInfo, EndUserService, NetworkRecord, DbCentral,
}
use mec_measurements.Database.Queries.{get_service}
use mec_measurements.Database.Updates.{save_service}

-- An object of the list of get_info_all_servers.
pub record ServerEntry : Type 0 where
  pub server_name : String
  pub ip : Option String
  pub distance : Option ℕ
  pub bs : Option String

module _ ⦃p : Platform⦄ where
  open p use {of_ℕ, minus, over, lt, first, rows, save, delete}

  -- The keyword arguments that process_edge_register gives to register_server.
  pub record Registration : Type 0 where
    pub name : String
    pub ip : String
    pub bs : Option String
    pub bs_x : Option Real
    pub bs_y : Option Real
    pub distance : ℕ
    pub rho : Option Real
    pub phi : Option Real

  -- A report of a user's request, update_eu_service_monitor's eu_service.
  pub record EuService : Type 0 where
    pub start_time : ℕ
    pub end_time : ℕ
    pub process_time : Real
    pub sent_size : ℕ
    pub end_user : String
    pub service_name : String
    pub ssid : String
    pub bssid : Option String

  abbrev save_server : EdgeServerInfo → DbCentral → DbCentral
  save_server s db = record db { servers = save db.servers s.name s }

  abbrev save_bts : BtsInfo → DbCentral → DbCentral
  save_bts b db = record db { btss = save db.btss b.name b }

  abbrev names_server : String → BtsInfo → Bool
  names_server name b = elim b.server_id [ none ↦ false | some id ↦ id == name ]

  -- The relationship server.bts_info
  unfoldable pub bts_of_server : DbCentral → String → Option BtsInfo
  bts_of_server db name = find (names_server name) (rows db.btss)

  -- server_info.bts_info = None: the base station loses its key.
  unlink_bts : String → DbCentral → DbCentral
  unfolding bts_of_server
  unlink_bts name db = elim (bts_of_server db name) [
    | none ↦ db
    | some b ↦ save_bts (record b { server_id = none }) db
  ]

  -- server_info.bts_info = bts, where the base station is stored or new
  link_bts : Registration → String → DbCentral → DbCentral
  link_bts r bts_name db = elim (first db.btss bts_name) [
    | some b ↦ save_bts (record b { server_id = some r.name }) db
    | none ↦
        save_bts
          (record {
            name = bts_name;
            ip = none;
            server_id = some r.name;
            bssid = some "";
            pwd = "";
            x = r.bs_x;
            y = r.bs_y;
          })
          db
  ]

  new_server : Registration → EdgeServerInfo
  new_server r = record {
    name = r.name;
    ip = some r.ip;
    distance = some r.distance;
    core_cpu = none;
    max_cpu = none;
    ram = none;
    ram_free = none;
    disk = none;
    disk_free = none;
    phi = r.phi;
    rho = r.rho;
  }

  -- The row of a server that is stored stays as it is, but for its base station.
  stored_server : Registration → DbCentral → DbCentral
  unfolding unlink_bts new_server
  stored_server r db = elim (first db.servers r.name) [
    | none ↦ save_server (new_server r) db
    | some _ ↦ unlink_bts r.name db
  ]

  pub register_server : Registration → DbCentral → DbCentral
  unfolding stored_server link_bts
  register_server r db =
      let stored : DbCentral = stored_server r db in
      elim r.bs [ none ↦ stored | some bts_name ↦ link_bts r bts_name stored ]

  -- The object of a server.
  abbrev pub entry_of : DbCentral → EdgeServerInfo → ServerEntry
  entry_of db s = record {
    server_name = s.name;
    ip = s.ip;
    distance = s.distance;
    bs = Option.map (λ (b : BtsInfo). b.name) (bts_of_server db s.name);
  }

  pub get_info_all_servers : DbCentral → List ServerEntry
  get_info_all_servers db = map (entry_of db) (rows db.servers)

  -- session.delete of a server: SQLAlchemy sets the key of its base station to NULL.
  pub remove_server : String → DbCentral → DbCentral
  unfolding unlink_bts
  remove_server name db = elim (first db.servers name) [
    | none ↦ db
    | some s ↦
        let free : DbCentral = unlink_bts name db in
        record free { servers = delete free.servers name }
  ]

  unfoldable pub get_service_with_server : DbCentral → String → List ServiceInfo
  get_service_with_server db server =
      filter (λ (s : ServiceInfo). s.server_name == server) (rows db.services)

  abbrev has_ip : String → EdgeServerInfo → Bool
  has_ip ip s = elim s.ip [ none ↦ false | some i ↦ i == ip ]

  -- Query.scalar raises if there is more than one row.
  pub get_server_name_from_ip : DbCentral → String → Result (Option String)
  get_server_name_from_ip db ip = elim (filter (has_ip ip) (rows db.servers)) [
    | [] ↦ return none
    | s ∷ [] ↦ return (some s.name)
    | s ∷ t ∷ rest ↦ raise multiple_results
  ]

  pub update_server_monitor :
      String
      → (cpu_max cpu_cores : Option ℕ) → (mem_total mem_free disk_total disk_free : Option Real)
      → DbCentral
      → DbCentral
  update_server_monitor name cpu_max cpu_cores mem_total mem_free disk_total disk_free db =
      elim (first db.servers name) [
        | none ↦ db
        | some s ↦
            save_server
              (record s {
                core_cpu = cpu_cores;
                max_cpu = cpu_max;
                ram = mem_total;
                ram_free = mem_free;
                disk = disk_total;
                disk_free = disk_free;
              })
              db
      ]

  pub update_network_monitor :
      ℕ → (source dest : Option String) → (latency bandwidth : Real) → DbCentral → DbCentral
  update_network_monitor now source dest latency bandwidth db = record db {
    network_monitor =
        db.network_monitor
        ++ record {
          timestamp = now;
          src_node = source;
          dest_node = dest;
          latency = latency;
          bw = bandwidth;
        }
          ∷ [];
  }

  -- (end - start) / 10**6
  abbrev e2e_delay : EuService → Real
  e2e_delay r = over (minus (of_ℕ r.end_time) (of_ℕ r.start_time)) (of_ℕ (10 ^ 6))

  -- Whether the report violates the service-level agreement, and the database with the report; the
  -- service counts the request.
  pub update_eu_service_monitor : ℕ → EuService → DbCentral → Bool × DbCentral
  update_eu_service_monitor now r db = elim (get_service db r.end_user) [
    | none ↦ (false, db)
    | some running ↦ (
      lt (of_ℕ 50) (minus (e2e_delay r) r.process_time),
      save_service (record running { no_request = running.no_request + 1 })
          (record db {
            user_service =
                db.user_service
                ++ record {
                  timestamp = now;
                  user_id = r.end_user;
                  service_id = str_append r.service_name r.end_user;
                  ssid = r.ssid;
                  bssid = r.bssid;
                  server_name = running.server_name;
                  proc_delay = r.process_time;
                  e2e_delay = e2e_delay r;
                  request_size = r.sent_size;
                }
                  ∷ [];
          }),
    )
  ]
