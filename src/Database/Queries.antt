-- ===== src/Database/Queries.antt =====
-- The methods of DbCentral that look up users, services, servers and base stations, with the
-- relationships of the mapped classes: a relationship is the row that the foreign key names.
use mec_measurements.Prelude.{
  ℕ, String, Bool, false, Option, none, some, find, if◌then◌else◌, ◌==◌, leb, ◌-◌, ◌&&◌,
}
use Prim.Native.String.{len, slice}
use mathlib.Core.Option
use mec_measurements.Platform.{Platform}
use mec_measurements.Database.Rows.{ServiceInfo, EndUserInfo, EdgeServerInfo, BtsInfo, DbCentral}

-- The JSON object of ServiceInfo.get_json
pub record ServiceJson : Type 0 where
  pub method : String
  pub container_img : Option String
  pub end_user : String
  pub server_name : String
  pub service_name : String
  pub ip : Option String
  pub port : Option ℕ
  pub container_port : Option ℕ
  pub ssid : String
  pub bssid : Option String

-- re.sub('{}$'.format(suffix), '', text), for a suffix with no special character
strip_suffix : String → String → String
strip_suffix suffix text =
    let cut = len text - len suffix in
    if leb (len suffix) (len text) && slice text cut (len text) == suffix
    then slice text 0 cut
    else text

module _ ⦃p : Platform⦄ where
  open p use {first, rows}

  unfoldable pub get_user : DbCentral → String → Option EndUserInfo
  get_user db end_user = first db.users end_user

  unfoldable pub get_bts : DbCentral → String → Option BtsInfo
  get_bts db name = first db.btss name

  pub get_server : DbCentral → String → Option EdgeServerInfo
  get_server db server_name = first db.servers server_name

  -- The relationship user.service
  unfoldable pub service_of : DbCentral → EndUserInfo → Option ServiceInfo
  service_of db user = Option.bind user.service_id (first db.services)

  unfoldable pub get_service : DbCentral → String → Option ServiceInfo
  unfolding service_of
  get_service db end_user = Option.bind (first db.users end_user) (service_of db)

  -- u.service_id == key
  abbrev refers : String → EndUserInfo → Bool
  refers key u = elim u.service_id [ none ↦ false | some k ↦ k == key ]

  -- The relationship service.user
  unfoldable pub user_of : DbCentral → ServiceInfo → Option EndUserInfo
  user_of db service = find (refers service.name) (rows db.users)

  -- The relationships service.edge_server and user.bts_info
  unfoldable pub edge_server_of : DbCentral → ServiceInfo → Option EdgeServerInfo
  edge_server_of db service = first db.servers service.server_name

  unfoldable pub bts_info_of : DbCentral → EndUserInfo → Option BtsInfo
  bts_info_of db user = first db.btss user.bts

  -- ServiceInfo.get_json; a missing object is an AttributeError, which the method catches.
  pub get_json : DbCentral → ServiceInfo → Option ServiceJson
  unfolding user_of edge_server_of bts_info_of
  get_json db service = Option.bind (user_of db service) λ user.
      Option.bind (edge_server_of db service) λ server. Option.bind (bts_info_of db user) λ bts.
        some (record {
          method = service.method;
          container_img = service.container_img;
          end_user = user.name;
          server_name = service.server_name;
          service_name = strip_suffix user.name service.name;
          ip = server.ip;
          port = service.port;
          container_port = service.container_port;
          ssid = user.bts;
          bssid = bts.bssid;
        })

  unfoldable pub query_cur_assign : DbCentral → String → Option (String × Option String)
  unfolding service_of
  query_cur_assign db user = elim (first db.users user) [
    | none ↦ none
    | some row ↦
        if row.status
        then some (row.bts, Option.map (λ (s : ServiceInfo). s.server_name) (service_of db row))
        else none
  ]

  pub get_server_ip : DbCentral → String → Option String
  get_server_ip db name = Option.bind (first db.servers name) (λ (s : EdgeServerInfo). s.ip)
