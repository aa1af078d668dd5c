-- ===== src/Migration/Datagrams.antt =====
-- The datagrams of a source (migrate_source.py) and the loop of the destination that reads them
-- (MigrateDest.process_line and node_main of migrate_dest.py). yaml.safe_load is outside the
-- repository: it gives the keyword arguments, or none for a YAMLError.
pub mod Laws
use mec_measurements.Prelude.{
  ℕ, ◌+◌, ◌≤◌, ◌<◌, String, Bool, true, false, Option, none, some, List, [], ◌∷◌, ◌++◌, ◌≡◌, refl,
  ◌∙◌, length, length-append, if◌then◌else◌, arith, ap,
}
use mec_measurements.Effects.{
  Result, return, raise, Action, and_then, ◌>>=◌, ◌>>◌, skip, index_error,
}
use mec_measurements.Bytes.{
  Bytes, bytes, bytes_eq, bytes_eq_refl, take, take_all, Lacks, Lacks-take, Lacks-append, split,
  split_first, split_first-append, split-append, split_lacking, but_last,
}
use mec_measurements.Edge.MigrateNode.{Kwargs}
use mec_measurements.Migration.DiffPatch.{Tools}
use mec_measurements.Migration.Commands.{Daemon}
use mec_measurements.Migration.State.{MigrateDest}
use mec_measurements.Migration.Dest

-- "{} {}\n".format(command, payload), what the source sends
unfoldable pub datagram : (command payload : Bytes) → Bytes
datagram command payload = command ++ b' ' ∷ payload ++ b'\n' ∷ []

module _ {t : Tools} {d : Daemon t.Content} (yaml_load : Bytes → Option Kwargs) (binds : ℕ → Bool)
    (addr : String) where
  abbrev pub dispatch : (command : Bytes) → Option Kwargs → Action (MigrateDest t d) (Unit {0})
  dispatch command none s = skip s
  dispatch command (some kwargs) s =
      if bytes_eq command (bytes "prepare")
      then Dest.handle_cmd_prepare binds addr kwargs s
      else if bytes_eq command (bytes "migrate")
      then Dest.handle_cmd_migrate kwargs s
      else skip s

  abbrev pub with_message : Bytes × Option Bytes → Action (MigrateDest t d) (Unit {0})
  with_message (command, none) s = (raise index_error, s)
  with_message (command, some payload) s = dispatch command (yaml_load payload) s

  unfoldable pub process_line : Bytes → Action (MigrateDest t d) (Unit {0})
  process_line line = with_message (split_first b' ' line)

  unfoldable pub process_lines : List Bytes → Action (MigrateDest t d) (Unit {0})
  process_lines [] = skip
  process_lines (line ∷ lines) = process_line line >> process_lines lines

  -- One round of the loop: recvfrom(1024) takes that many bytes of a datagram and drops the others.
  unfoldable pub receive : Bytes → Action (MigrateDest t d) (Unit {0})
  receive sent = process_lines (but_last (split b'\n' (take 1024 sent)))
