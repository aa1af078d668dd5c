-- ===== src/Migration/Relocation/Losses.antt =====
-- How a preparation fails (migrate_source.py).
use mec_measurements.Prelude.{String, none, ◌≡◌, refl}
use mec_measurements.Effects.{raise, called_process_error}
use mec_measurements.Edge.MigrateNode.{
  MigrateNode, Kwargs, init, get_container_name, get_checkpoint_folder,
}
use mec_measurements.Migration.Names.{get_snapshot_name_pre}
use mec_measurements.Migration.DiffPatch.{Tools}
use mec_measurements.Migration.Commands.{Daemon, rsync, measure_img_size}
use mec_measurements.Migration.State.{Ends}
use mec_measurements.Migration.Source

module _ (t : Tools) (d : Daemon t.Content) (kwargs : Kwargs) (w : Ends t d) where
  abbrev pub service : MigrateNode
  service = init kwargs

  abbrev pub container : String
  container = get_container_name service

  -- A preparation by differences of a service that was not measured before, so that there is no
  -- second checkpoint, raises: nothing is sent, and nothing is changed at the destination.
  pub handle_cmd_prepare_unmeasured :
      w.source.method ≡ "delta"
      → w.source.host.disk (get_checkpoint_folder service) (get_snapshot_name_pre "2" service)
        ≡ none
      → ((Source.handle_cmd_prepare kwargs w).0 ≡ raise called_process_error)
        × ((Source.handle_cmd_prepare kwargs w).1.source.sent ≡ w.source.sent)
        × ((Source.handle_cmd_prepare kwargs w).1.dest ≡ w.dest)
  unfolding Source.handle_cmd_prepare rsync measure_img_size
  handle_cmd_prepare_unmeasured m absent = rw (m, absent) (refl, refl, refl)
