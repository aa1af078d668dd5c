-- ===== src/Database/Migrations.antt =====
-- The history of migrations in DbCentral (central_database.py): the two reports of a migration make
-- one row, and the rows give the factors phi and rho of a server's speed.
pub mod Laws
use mathlib.Core.Option
use mec_measurements.Prelude.{
  ℕ, ◌+◌, ◌*◌, ◌^◌, String, Bool, true, false, not, ◌&&◌, Option, none, some, get_or, is_some, List,
  [], ◌∷◌, ◌++◌, ◌==◌, map, filter, find, ltb, eqb, if◌then◌else◌,
}
use mec_measurements.Prelude.Lists.Newest.{newest_first, limit}
use mec_measurements.Prelude.Dict.{put}
use mec_measurements.Platform.{Platform, Real}
use mec_measurements.Effects.{
  Result, Exception, return, raise, attribute_error, type_error, key_error, zero_division_error,
  Action, needed, modify, skip, ◌>>=◌, ◌>>◌,
}
use mec_measurements.Database.Estimate as Estimate
use mec_measurements.Database.Rows.{
  ServiceInfo, EndUserInfo, EdgeServerInfo, MigrateRecord, DbCentral,
}
use mec_measurements.Database.Queries.{get_server, user_of}
use mec_measurements.Database.History.{average, product}

-- The report of one end of a migration, with what the other end knows left out.
pub record MigrateReport ⦃p : Platform⦄ : Type 0 where
  pub source : String
  pub dest : String
  pub service : String
  pub prepare : Option Real
  pub checkpoint : Option Real
  pub restore : Option Real
  pub xdelta_dest : Option Real
  pub size_pre_rsync : Option ℕ
  pub size_rsync : Option ℕ
  pub size_final_rsync : Option ℕ

module _ ⦃p : Platform⦄ where
  open p use {of_ℕ, plus, times, over, lt, first}

  -- MigrateRecord(timestamp=now, **kwargs), with restore = None
  unfoldable pub update_migrate_record_source : ℕ → MigrateReport → DbCentral → DbCentral
  update_migrate_record_source now r db = record db {
    migrate_history =
        db.migrate_history
        ++ record {
          timestamp = now;
          source = r.source;
          dest = r.dest;
          service = r.service;
          checkpoint = r.checkpoint;
          restore = none;
          xdelta_dest = r.xdelta_dest;
          size_pre_rsync = r.size_pre_rsync;
          size_rsync = r.size_rsync;
          size_final_rsync = r.size_final_rsync;
        }
          ∷ [];
  }

  -- The rows of a migration whose destination has not reported.
  unfoldable pub is_open : MigrateReport → MigrateRecord → Bool
  is_open r m =
      m.source == r.source && m.dest == r.dest && m.service == r.service && not (is_some m.restore)

  abbrev pub restored : MigrateReport → MigrateRecord → MigrateRecord
  restored r m = record m {
    restore = some (get_or r.restore (of_ℕ 0));
    xdelta_dest = r.xdelta_dest;
  }

  -- An assignment to the attributes of the row with this key.
  unfoldable pub with_row : MigrateRecord → List MigrateRecord → List MigrateRecord
  with_row m [] = []
  with_row m (row ∷ rows) =
      if eqb row.timestamp m.timestamp then m ∷ rows else row ∷ with_row m rows

  abbrev pub newest_row : List MigrateRecord → Option MigrateRecord
  newest_row rows = find (λ m. true) (newest_first (λ m. m.timestamp) rows)

  abbrev pub unless_late :
      ℕ
      → (timeout : ℕ) → MigrateReport
      → Option MigrateRecord
      → DbCentral
      → Option MigrateRecord × DbCentral
  unless_late now timeout r none db = (none, db)
  unless_late now timeout r (some m) db = if ltb (m.timestamp + timeout) now then (none, db) else (
    some (restored r m),
    record db { migrate_history = with_row (restored r m) db.migrate_history },
  )

  unfoldable pub update_migrate_record_dest :
      (now timeout : ℕ) → MigrateReport → DbCentral → Option MigrateRecord × DbCentral
  update_migrate_record_dest now timeout r db =
      unless_late now timeout r (newest_row (filter (is_open r) db.migrate_history)) db

  unfoldable pub update_t_pre_mig :
      (service_user source dest : String) → Real → Action DbCentral (Unit {0})
  update_t_pre_mig service_user source dest t_pre_mig = do
    service ← λ db. needed attribute_error (first db.services service_user) db
    end_user ← λ db. needed attribute_error (user_of db service) db
    estimate ← λ db. needed key_error (db.est_time_users end_user.name) db
    modify λ db. record db {
      est_time_users =
          put db.est_time_users end_user.name
            (Estimate.update_t_pre_mig estimate source dest t_pre_mig);
    }

  -- Python's chain of attributes and operations for one row: a missing object is an attribute error
  -- and a missing number a type error.
  abbrev pub then_with : {A B : Type 0} → Result A → (A → Result B) → Result B
  then_with (return a) f = f a
  then_with (raise e) f = raise e

  abbrev pub there : {A : Type 0} → Exception → Option A → Result A
  there e none = raise e
  there e (some a) = return a

  abbrev pub quotient : Real → ℕ → Real → Result Real
  quotient x zero_when y = if eqb zero_when 0 then raise zero_division_error else return (over x y)

  -- max_cpu * core_cpu * seconds of a server
  abbrev pub cycles : Option EdgeServerInfo → Option Real → Result Real
  cycles server seconds = then_with (there attribute_error server) λ s.
      then_with (product s.max_cpu s.core_cpu)
        λ n. then_with (there type_error seconds) λ x. return (times (of_ℕ n) x)

  unfoldable pub checkpoint_speed : DbCentral → MigrateRecord → Result Real
  checkpoint_speed db m = then_with (cycles (first db.servers m.source) m.checkpoint) λ x.
      then_with (there attribute_error (first db.services m.service))
        λ s. then_with (there type_error s.size) λ size. quotient x size (of_ℕ size)

  abbrev pub each : (MigrateRecord → Result Real) → List MigrateRecord → Result (List Real)
  each f [] = return []
  each f (m ∷ ms) = then_with (f m) λ x. then_with (each f ms) λ xs. return (x ∷ xs)

  abbrev pub with_phi : String → Result (List Real) → Action DbCentral (Unit {0})
  with_phi name (return []) = skip
  with_phi name (return (x ∷ xs)) = do
    server ← λ db. needed attribute_error (get_server db name) db
    modify λ db. record db {
      servers = p.save db.servers name (record server { phi = some (average (x ∷ xs)) });
    }
  with_phi name (raise e) = λ db. (raise e, db)

  -- The handler of AttributeError logs and goes on.
  abbrev pub unless_missing : Result (Unit {0}) × DbCentral → Result (Unit {0}) × DbCentral
  unless_missing (return x, db) = (return x, db)
  unless_missing (raise Exception.attribute_error, db) = (return tt, db)
  unless_missing (raise e, db) = (raise e, db)

  unfoldable pub restore_speed : DbCentral → MigrateRecord → Result Real
  restore_speed db m = then_with (cycles (first db.servers m.dest) m.restore) λ x.
      then_with (there attribute_error (first db.services m.service)) λ s.
        then_with (there type_error s.size) λ size. then_with (there type_error m.size_rsync) λ a.
          then_with (there type_error m.size_pre_rsync) λ b.
            then_with (there type_error m.size_final_rsync) λ c.
              quotient x (size + a + b + c)
                (plus (of_ℕ size) (over (of_ℕ (a + b + c)) (of_ℕ (10 ^ 6))))

  abbrev pub with_rho : String → Result (List Real) → Action DbCentral (Unit {0})
  with_rho name (return []) = skip
  with_rho name (return (x ∷ xs)) = do
    server ← λ db. needed attribute_error (get_server db name) db
    modify λ db. record db {
      servers = p.save db.servers name (record server { rho = some (average (x ∷ xs)) });
    }
  with_rho name (raise e) = λ db. (raise e, db)

  unfoldable pub update_rho : String → Action DbCentral (Unit {0})
  update_rho server_name db = unless_missing (
      with_rho server_name
        (each (restore_speed db) (
          limit 20 (
            newest_first (λ m. m.timestamp)
              (filter (λ m. m.dest == server_name) db.migrate_history))))
        db)

  unfoldable pub update_phi : String → Action DbCentral (Unit {0})
  update_phi server_name db = unless_missing (
      with_phi server_name
        (each (checkpoint_speed db) (
          limit 20 (
            newest_first (λ m. m.timestamp)
              (filter (λ m. m.source == server_name) db.migrate_history))))
        db)
