-- ===== src/Database/Servers/Laws.antt =====
-- What the list of servers holds after a registration and a removal (central_database.py).
use mec_measurements.Prelude.{
  Option, Bool, if◌then◌else◌, eq_iff, String, true, none, some, ◌≡◌, ◌∙◌, refl, ◌==◌, any, any-map,
  arith, eq_refl, Option-cases, inl, inr,
}
use mec_measurements.Platform.{Platform}
use mec_measurements.Database.Rows.{EdgeServerInfo, DbCentral}
use mec_measurements.Database.Servers.{
  ServerEntry, Registration, register_server, stored_server, link_bts, unlink_bts, new_server,
  entry_of, get_info_all_servers, remove_server,
}

module _ ⦃p : Platform⦄ where
  open p use {first, rows, save, rows-first, first-save, first-delete}

  servers-unlink_bts : (name : String) (db : DbCentral) → (unlink_bts name db).servers ≡ db.servers
  unfolding unlink_bts
  servers-unlink_bts name db = ground arith

  servers-link_bts :
      (r : Registration) (bts_name : String) (db : DbCentral)
      → (link_bts r bts_name db).servers ≡ db.servers
  unfolding link_bts
  servers-link_bts r bts_name db = ground arith

  servers-register_server :
      (r : Registration) (db : DbCentral)
      → (register_server r db).servers ≡ (stored_server r db).servers
  unfolding register_server
  servers-register_server r db = elim (Option-cases r.bs) [
    | inl e ↦ rw (register_server, e) refl
    | inr (name, e) ↦ rw (register_server, e) (servers-link_bts r name (stored_server r db))
  ]

  -- The row that is found has the name, if there is one.
  abbrev has_name : String → Option EdgeServerInfo → Bool
  has_name name none = true
  has_name name (some s) = s.name == name

  -- Every row stands under its name.
  abbrev pub IsNamed : DbCentral → Type 0
  IsNamed db = (name : String) → has_name name (first db.servers name) ≡ true

  name_of :
      (db : DbCentral) (name : String) (s : EdgeServerInfo)
      → IsNamed db
      → first db.servers name ≡ some s
      → s.name ≡ name
  name_of db name s named e = ground (arith, named name, eq_iff s.name name)

  -- The row that a registered server has.
  first-register_server :
      (r : Registration) (db : DbCentral)
      → IsNamed db
      → (s : EdgeServerInfo) × (first (register_server r db).servers r.name ≡ some s)
        × (s.name ≡ r.name)
  unfolding stored_server new_server
  first-register_server r db named = elim (Option-cases (first db.servers r.name)) [
    | inl e ↦ (
      new_server r,
      rw (servers-register_server r db, stored_server, e)
          (ground (arith, first-save db.servers r.name (new_server r) r.name, eq_refl r.name)),
      refl,
    )
    | inr (s, e) ↦ (
      s,
      rw (servers-register_server r db, stored_server, e) (rw (servers-unlink_bts r.name db) e),
      name_of db r.name s named e,
    )
  ]

  -- The list for the servers names each server that has registered.
  pub get_info_all_servers-register_server :
      (r : Registration) (db : DbCentral)
      → IsNamed db
      → any (λ entry. entry.server_name == r.name) (get_info_all_servers (register_server r db))
        ≡ true
  unfolding get_info_all_servers
  get_info_all_servers-register_server r db named =
      let (s, found, name) = first-register_server r db named in
      let after = register_server r db in
      any-map (λ (entry : ServerEntry). entry.server_name == r.name) (entry_of after)
        (rows after.servers)
      ∙ rows-first after.servers r.name s (λ x. x.name == r.name) found (rw name (eq_refl r.name))

  pub remove_server_lem :
      (name other : String) (db : DbCentral)
      → IsNamed db
      → first (remove_server name db).servers other
        ≡ (if name == other then none else first db.servers other)
  unfolding remove_server
  remove_server_lem name other db named = elim (Option-cases (first db.servers name)) [
    | inl e ↦ ground (arith, eq_iff name other)
    | inr (s, e) ↦ ground (
      arith,
      name_of db name s named e,
      servers-unlink_bts name db,
      first-delete (unlink_bts name db).servers name other,
    )
  ]
