-- ===== src/Migration/Relocation/Laws.antt =====
-- The contract of a whole migration (migrate_source.py, migrate_dest.py).
use mathlib.Core.Path.{subst}
use mec_measurements.Prelude.{
  ℕ, String, Bool, Option, none, some, is_some, get_or, [], ◌≡◌, refl, ◌∙◌, sym, ap, if◌then◌else◌,
  eq_refl,
}
use mec_measurements.Effects.{return}
use mec_measurements.Edge.MigrateNode.{
  MigrateNode, Kwargs, init, get_container_name, get_checkpoint_folder, get_migrate_service,
  init-get_migrate_service,
}
use mec_measurements.Edge.Services.{find_open_port}
use mec_measurements.Edge.ControllerServer.State.{MigrationReport}
use mec_measurements.Migration.Names.{get_snapshot_name_pre, get_snapshot_delta}
use mec_measurements.Migration.Files.{Folder}
use mec_measurements.Migration.DiffPatch.{Tools, IsDocumented}
use mec_measurements.Migration.Commands.{Daemon, view}
use mec_measurements.Migration.Commands.Laws.{
  containers-docker_checkpoint_stopping, containers-docker_checkpoint_running,
}
use mec_measurements.Migration.State.{MigrateDest, Ends, on_source}
use mec_measurements.Migration.Relocation.{migration, relocate, resumed, containers_of}
use mec_measurements.Migration.Source
use mec_measurements.Migration.Dest
use mec_measurements.Migration.Relocation.Shipping.{
  shipped, handle_cmd_prepare-shipped, kept_third, sent_second, sent_third, sent_diff,
  sent_no_snapshot, sent_no_delta,
}
use mec_measurements.Migration.Relocation.Contents.{
  IsCarried, third_there, snapshot_there, snapshot_arrives,
}
use mec_measurements.Migration.Relocation.Receiving.{
  readied, handle_cmd_prepare-readied, restored_third, same_snapshot, same_delta,
  handle_cmd_migrate-resumed,
}
use mec_measurements.Migration.Relocation.Moving.{
  moved, handle_cmd_migrate-moved, sent_snapshot, sent_last_diff, same_third,
}

module _ (t : Tools) (d : Daemon t.Content) (doc : IsDocumented t) (kwargs : Kwargs)
    (binds : ℕ → Bool) (addr : String) (works : d.Containers → d.Containers) (runs : Bool)
    (port : ℕ) (base third : Folder t.Content) (w : Ends t d) where
  abbrev told : Kwargs
  told = get_migrate_service (init kwargs)

  abbrev service : MigrateNode
  service = init kwargs

  told_lem : init told ≡ service
  told_lem = init-get_migrate_service service

  -- The states after the two preparations, after some work of the container, and after the move.
  abbrev prepared : MigrateDest t d
  prepared = readied t d told service told_lem addr port (shipped t d kwargs w).dest

  abbrev worked : Ends t d
  worked =
      on_source (λ host. record host { containers = works host.containers })
        (record (shipped t d kwargs w) { dest = prepared })

  abbrev report : MigrationReport
  report = record { source = none; dest = some service.ip; service = get_container_name service }

  abbrev prepared_report : MigrationReport
  prepared_report = record { source = some addr; dest = none; service = get_container_name service }

  module _ (by_source : w.source.method ≡ "delta") (by_delta : service.method ≡ "delta")
      (fresh : (name : String) → w.dest.host.disk (get_checkpoint_folder service) name ≡ none)
      (second_there : w.source.host.disk
          (get_checkpoint_folder service)
          (get_snapshot_name_pre "2" service)
        ≡ some base)
      (taken : d.checkpoint w.source.host.containers (get_container_name service) ≡ some third)
      (opens : find_open_port binds ≡ some port) where
    recorded : worked.source.records (get_container_name service) ≡ some report
    recorded = rw (eq_refl (get_container_name service)) refl

    abbrev final : Option (Folder t.Content)
    final = d.checkpoint worked.source.host.containers (get_container_name service)

    abbrev left : Ends t d
    left = moved t d kwargs runs report worked

    prepares_source : Source.handle_cmd_prepare kwargs w ≡ (return tt, shipped t d kwargs w)
    prepares_source = handle_cmd_prepare-shipped t d kwargs base w by_source second_there

    prepares_dest :
        Dest.handle_cmd_prepare binds addr told (shipped t d kwargs w).dest ≡ (return tt, prepared)
    prepares_dest =
        handle_cmd_prepare-readied t d told service told_lem binds addr port _
          (shipped t d kwargs w).dest opens
          (sent_second t d kwargs base third w fresh second_there taken)

    no_snapshot : prepared.host.disk (get_checkpoint_folder service) service.snapshot ≡ none
    no_snapshot =
        same_snapshot t d told service told_lem addr port (shipped t d kwargs w).dest
        ∙ sent_no_snapshot t d kwargs base third w fresh second_there taken

    no_delta :
        prepared.host.disk (get_checkpoint_folder service) (get_snapshot_delta service) ≡ none
    no_delta =
        same_delta t d told service told_lem addr port (shipped t d kwargs w).dest
        ∙ sent_no_delta t d kwargs base third w fresh second_there taken

    kept :
        worked.source.host.disk (get_checkpoint_folder service) (get_snapshot_name_pre "3" service)
        ≡ some third
    kept = kept_third t d kwargs base third w fresh second_there taken

    moves : Source.handle_cmd_migrate runs kwargs worked ≡ (return tt, left)
    moves = handle_cmd_migrate-moved t d kwargs runs report third worked recorded kept

    third_there_lem :
        left.dest.host.disk (get_checkpoint_folder service) (get_snapshot_name_pre "3" service)
        ≡ some (third_there t doc base third)
    third_there_lem =
        same_third t d kwargs runs report third worked kept no_snapshot no_delta
        ∙ restored_third t d told service told_lem addr port (shipped t d kwargs w).dest _ _ _
            (sent_second t d kwargs base third w fresh second_there taken)
            (sent_third t d kwargs base third w fresh second_there taken)
            (sent_diff t d kwargs base third w fresh second_there taken)

    resumes :
        ((Dest.handle_cmd_migrate told left.dest).0 ≡ return tt)
        × ((Dest.handle_cmd_migrate told left.dest).1.host.containers
            ≡ get_or
                (d.restore prepared.host.containers
                  (get_container_name service)
                  (view (some (snapshot_there t doc base third final))))
                (d.start prepared.host.containers (get_container_name service)))
    resumes =
        handle_cmd_migrate-resumed t d told service told_lem prepared_report port
          (third_there t doc base third) _ _ left.dest
          (rw (eq_refl (get_container_name service)) refl)
          (rw (eq_refl (get_container_name service)) refl) by_delta third_there_lem
          (sent_last_diff t d kwargs runs report third worked kept no_snapshot no_delta)
          (ap (λ o. get_or o [])
            (sent_snapshot t d kwargs runs report third worked kept no_snapshot no_delta))

    worked_lem : worked.source.host.containers ≡ works w.source.host.containers
    worked_lem = ap works (
        containers-docker_checkpoint_running t d (get_container_name service)
          (get_snapshot_name_pre "3" service) (get_checkpoint_folder service)
          (record w.source.host { disk = w.source.host.disk }))

    -- What was seen by the containers before the third checkpoint holds at the move.
    abbrev container : String
    container = get_container_name service

    stops :
        left.source.host.containers
        ≡ (relocate t d service port (works w.source.host.containers, w.dest.host.containers)).0
    stops =
        containers-docker_checkpoint_stopping t d container service.snapshot
          (get_checkpoint_folder service) worked.source.host
        ∙ ap (λ cs. if is_some (d.checkpoint cs container) then d.stop cs container else cs)
            worked_lem

    goes_on :
        IsCarried (get_or (d.checkpoint (works w.source.host.containers) container) [])
        → (Dest.handle_cmd_migrate told left.dest).1.host.containers
          ≡ (relocate t d service port (works w.source.host.containers, w.dest.host.containers)).1
    goes_on carried =
        resumes.1
        ∙ ap
            (λ seen.
              get_or (d.restore prepared.host.containers container seen)
                (d.start prepared.host.containers container))
            (snapshot_arrives t doc base third final (
              subst (λ cs. IsCarried (get_or (d.checkpoint cs container) [])) (sym worked_lem)
                carried))
        ∙ ap (λ cs. resumed t d (d.checkpoint cs container) prepared.host.containers container)
            worked_lem

    -- A migration by differences, to a destination with nothing in the checkpoint folder and a free
    -- port, ends without an exception. It does to the containers of the two hosts just what a
    -- checkpoint copied as a whole would do: the source's container, after what it did meanwhile, is
    -- stopped at its checkpoint, and the one created at the destination is restored from exactly
    -- that checkpoint's files or else started; where no checkpoint can be taken the source's
    -- container stays and the restore sees no file. The second and third checkpoints are supposed
    -- to be there, the tools to work as documented, and the final checkpoint's packed archives to
    -- be files that the transfer takes.
    pub migration-relocates :
        IsCarried (get_or (d.checkpoint (works w.source.host.containers) container) [])
        → ((migration binds addr works runs kwargs w).0 ≡ return tt)
          × (containers_of (migration binds addr works runs kwargs w).1
              ≡ relocate t d service port (works w.source.host.containers, w.dest.host.containers))
    unfolding migration
    migration-relocates carried =
        rw (prepares_source, prepares_dest, moves) (resumes.0, λ i. (stops i, goes_on carried i))
