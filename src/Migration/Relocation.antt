-- ===== src/Migration/Relocation.antt =====
-- A whole migration: the preparation and the move at the source (migrate_source.py), and the
-- destination's handling of the two datagrams (migrate_dest.py), while the container works on.
pub mod Shipping
pub mod Contents
pub mod Receiving
pub mod Moving
pub mod Losses
pub mod Laws
use mec_measurements.Prelude.{ℕ, String, Bool, Option, some, is_some, get_or, [], if◌then◌else◌}
use mec_measurements.Effects.{Result, Action, ◌>>=◌, ◌>>◌, modify}
use mec_measurements.Edge.MigrateNode.{
  MigrateNode, Kwargs, init, get_container_name, get_migrate_service,
}
use mec_measurements.Migration.Files.{Folder}
use mec_measurements.Migration.DiffPatch.{Tools}
use mec_measurements.Migration.Commands.{Daemon, docker_create_container, view}
use mec_measurements.Migration.State.{MigrateDest, Ends, on_source}
use mec_measurements.Migration.Source
use mec_measurements.Migration.Dest

-- What a migration promises of the containers of the two hosts, whatever it transfers: the source's
-- container is stopped at a checkpoint, and the one that is created at the destination goes on from
-- that checkpoint or, where it cannot, starts new.
module _ (t : Tools) (d : Daemon t.Content) where
  abbrev pub resumed : Option (Folder t.Content) → d.Containers → String → d.Containers
  resumed checkpoint cs container =
      get_or (d.restore cs container (view (some (get_or checkpoint [])))) (d.start cs container)

  abbrev pub relocate :
      MigrateNode → (port : ℕ) → d.Containers × d.Containers → d.Containers × d.Containers
  relocate service port (here, there) =
      let container = get_container_name service in
      let checkpoint = d.checkpoint here container in
      let created =
        docker_create_container t d service.container_img container service.container_port port
          there in
      (
        if is_some checkpoint then d.stop here container else here,
        resumed checkpoint created container,
      )

module _ {t : Tools} {d : Daemon t.Content} where
  abbrev pub containers_of : Ends t d → d.Containers × d.Containers
  containers_of w = (w.source.host.containers, w.dest.host.containers)

  -- A datagram is handled at the destination.
  abbrev pub deliver : Action (MigrateDest t d) (Unit {0}) → Action (Ends t d) (Unit {0})
  deliver m w = let (r, s) = m w.dest in (r, record w { dest = s })

  unfoldable pub migration :
      (binds : ℕ → Bool) (addr : String) (works : d.Containers → d.Containers) (runs : Bool)
      → Kwargs
      → Action (Ends t d) (Unit {0})
  migration binds addr works runs kwargs =
      let told : Kwargs = get_migrate_service (init kwargs) in
      Source.handle_cmd_prepare kwargs
      >> deliver (Dest.handle_cmd_prepare binds addr told)
      >> modify (on_source (λ host. record host { containers = works host.containers }))
      >> Source.handle_cmd_migrate runs kwargs
      >> deliver (Dest.handle_cmd_migrate told)
