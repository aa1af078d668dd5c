-- ===== src/Migration/State.antt =====
-- The two ends of a migration: MigrateSource (migrate_source.py) and MigrateDest (migrate_dest.py),
-- with the disk and the containers of the host of each. `sent` holds the datagrams to the other end
-- and the calls of the callbacks, in their order. The times that the source logs are left out.
use mec_measurements.Prelude.{ℕ, String, Bool, Option, none, some, List, [], ◌∷◌, ◌++◌, ◌≡◌, refl}
use mec_measurements.Prelude.Dict.{Dict}
use mec_measurements.Effects.{return, raise, Action, called_process_error}
use mec_measurements.Edge.MigrateNode.{Kwargs}
use mec_measurements.Edge.ControllerServer.State.{MigrationReport}
use mec_measurements.Migration.Files.{Folder}
use mec_measurements.Migration.DiffPatch.{Tools}
use mec_measurements.Migration.Commands.{
  Daemon, Host, rsync, docker_checkpoint, compute_diff, diffed, measure_img_size,
}

pub data Sent : Type 0 where
  -- datagrams to the destination
  prepare migrate : Kwargs → Sent
  -- source_dirty_rate_cb, source_prepare_cb, source_migrate_cb, dest_migrate_cb
  dirty_rate prepared migrated_away migrated_here : Kwargs → Sent
  -- source_report_cb, dest_report_cb
  reported : MigrationReport → Sent

module _ (t : Tools) (d : Daemon t.Content) where
  pub record MigrateSource : Type 0 where
    pub method : String
    pub state : String
    pub records : Dict MigrationReport
    pub ssh_handle : Bool
    pub host : Host t d
    pub sent : List Sent

  -- A closed socket stays in the dictionary: it has no port any more.
  pub record MigrateDest : Type 0 where
    pub records : Dict MigrationReport
    pub sockets : Dict (Option ℕ)
    pub host : Host t d
    pub sent : List Sent

  pub record Ends : Type 0 where
    pub source : MigrateSource
    pub dest : MigrateDest

-- subprocess.check_output raises where the command fails.
abbrev pub checked : {S : Type 0} → Option ℕ → Action S ℕ
checked none s = (raise called_process_error, s)
checked (some n) s = (return n, s)

module _ {t : Tools} {d : Daemon t.Content} where
  abbrev pub on_source : (Host t d → Host t d) → Ends t d → Ends t d
  on_source f w = record w { source = record w.source { host = f w.source.host } }

  abbrev pub tell : Sent → Ends t d → Ends t d
  tell m w = record w { source = record w.source { sent = w.source.sent ++ m ∷ [] } }

  abbrev pub enter : String → Ends t d → Ends t d
  enter state w = record w { source = record w.source { state = state } }

  -- self.controller.rsync(place/name, ..., place)
  abbrev pub send_folder : Option (String × String) → (place name : String) → Ends t d → Ends t d
  send_folder filter place name w = record w {
    dest = record w.dest {
      host = record w.dest.host {
        disk = rsync t filter place name w.source.host.disk w.dest.host.disk;
      };
    };
  }

  abbrev pub take_checkpoint :
      (container name place : String) → (leave_running : Bool) → Ends t d → Ends t d
  take_checkpoint container name place leave_running =
      on_source (λ host. (docker_checkpoint t d container name place leave_running host).1)

  abbrev pub add_diff : (place old new patch : String) → Ends t d → Ends t d
  add_diff place old new patch =
      on_source (λ host. record host { disk = (diffed t place old new patch host.disk).1 })

  -- compute_diff on the source's disk; its code is not looked at.
  unfoldable pub take_diff : (place old new patch : String) → Action (Ends t d) (Unit {0})
  take_diff place old new patch w =
      let (code, disk) = compute_diff t place old new patch w.source.host.disk in
      (
        elim code [ raise e ↦ raise e | return n ↦ return tt ],
        on_source (λ host. record host { disk = disk }) w,
      )

  -- With the old folder there, the checkpoint folder is, and the difference is made.
  pub take_diff-add_diff :
      (place old new patch : String) (files : Folder t.Content) (w : Ends t d)
      → w.source.host.disk place old ≡ some files
      → take_diff place old new patch w ≡ (return tt, add_diff place old new patch w)
  unfolding take_diff compute_diff
  take_diff-add_diff place old new patch files w h = rw (take_diff, compute_diff, h) refl

  abbrev pub measure : (place name : String) → Action (Ends t d) ℕ
  measure place name w = checked (measure_img_size t (w.source.host.disk place name)) w
