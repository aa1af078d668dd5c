-- ===== src/Examples/Migrating.antt =====
-- The theorems on migrations, applied to a small pair of hosts: files are lists of numbers, and a
-- container is its memory.
use mec_measurements.Prelude.{
  ℕ, ◌+◌, String, true, false, not, ◌||◌, Option, none, some, is_some, List, [], ◌∷◌, ◌≡◌, refl,
  ◌==◌, if◌then◌else◌, length, arith, eq_iff,
}
use mec_measurements.Prelude.Dict.{Dict, put, empty, remove}
use mec_measurements.Effects.{return, raise, called_process_error}
use mec_measurements.Edge.MigrateNode.{Kwargs, init, get_container_name, get_checkpoint_folder}
use mec_measurements.Edge.Services.{find_open_port, find_port}
use mec_measurements.Migration.Names.{contains, ends_with, get_snapshot_name_pre}
use mec_measurements.Migration.Files.{Folder, Disk, file_of}
use mec_measurements.Migration.DiffPatch.{
  Tools, IsDocumented, create_xdelta_diff, create_xdelta_patch,
}
use mec_measurements.Migration.DiffPatch.Laws.{restore-diff}
use mec_measurements.Migration.Commands.{Daemon, docker_verify, docker_checkpoint}
use mec_measurements.Migration.State.{Ends, dirty_rate}
use mec_measurements.Migration.Source
use mec_measurements.Migration.Source.{with_sizes}
use mec_measurements.Migration.Measuring
use mec_measurements.Migration.Measuring.{measurement-reports}
use mec_measurements.Migration.Relocation.{migration, relocate, containers_of}
use mec_measurements.Migration.Relocation.Laws.{migration-relocates}
use mec_measurements.Migration.Relocation.Contents.{IsCarried}
use mec_measurements.Migration.Relocation.Losses.{handle_cmd_prepare_unmeasured}

abbrev Content : Type 0
Content = List ℕ

-- A difference is marked by 1; there is none without the old file.
abbrev delta_of : Option Content → Content → Option Content
delta_of none new = none
delta_of (some old) new = some (1 ∷ new)

abbrev patch_of : Content → Option Content → Option Content
patch_of p none = none
patch_of [] (some old) = none
patch_of (mark ∷ new) (some old) = some new

-- A folder's own entry has 4096 bytes.
abbrev du : Folder Content → ℕ
du [] = 4096
du ((name, c) ∷ files) = length c + du files

abbrev pub tools : Tools
tools = record {
  Content = Content;
  du = du;
  has_place = λ disk place. false;
  delta = delta_of;
  patch = patch_of;
  sends = λ filter name.
      if is_some filter then ends_with ".tar.gz.img" name || not (ends_with ".img" name) else true;
}

patch_of-delta_of :
    (old : Option Content) (new p : Content) → delta_of old new ≡ some p → patch_of p old ≡ some new
patch_of-delta_of none new p h = cc
patch_of-delta_of (some old) new p h = let e : 1 ∷ new ≡ p = cc in rw (← e) refl

patch_of_raw :
    (old : Option Content) (new : Content) → delta_of old new ≡ none → patch_of new old ≡ none
patch_of_raw none new h = refl
patch_of_raw (some old) new h = cc

tools-IsDocumented : IsDocumented tools
tools-IsDocumented = record {
  patch-delta = patch_of-delta_of;
  patch-raw = patch_of_raw;
  sends_all = λ name. refl;
  sends_small = λ name. refl;
}

abbrev dumped : Option ℕ → Option (Folder Content)
dumped none = none
dumped (some memory) =
    some (("pages-1.img", memory ∷ []) ∷ ("tmp.tar.gz.img", 7 ∷ []) ∷ ("config", 8 ∷ []) ∷ [])

abbrev memory_in : Dict ℕ → String → Option Content → Option (Dict ℕ)
memory_in cs name none = none
memory_in cs name (some []) = none
memory_in cs name (some (memory ∷ rest)) = some (put cs name memory)

abbrev restored : Dict ℕ → String → Option (Dict Content) → Option (Dict ℕ)
restored cs name none = none
restored cs name (some files) = memory_in cs name (files "pages-1.img")

-- A started container has the memory 0.
abbrev pub daemon : Daemon Content
daemon = record {
  Containers = Dict ℕ;
  listed = λ cs name. if is_some (cs name) then name ∷ [] else [];
  running = λ cs name. is_some (cs name);
  remove = λ cs name. remove cs name;
  create = λ cs image name container_port host_port. cs;
  start = λ cs name. put cs name 0;
  restore = restored;
  checkpoint = λ cs name. dumped (cs name);
  stop = λ cs name. remove cs name;
}

abbrev pub a_service : Kwargs
a_service = record {
  snapshot = some "snapshot";
  end_user = some "u1";
  service_name = some "openface";
  registry = none;
  user = none;
  ip = some "10.0.0.2";
  server_name = none;
  port = none;
  ssid = none;
  bssid = none;
  container_port = none;
  container_img = none;
  dump_dir = none;
  debug = none;
  method = some "delta";
  request = none;
  time_checkpoint = none;
  time_xdelta = none;
  delta_memory = none;
  pre_checkpoint = none;
}

abbrev a_container : String
a_container = "openfaceu1"

abbrev a_place : String
a_place = "/tmp/openfaceu1"

abbrev second : Folder Content
second = ("pages-1.img", 4 ∷ []) ∷ []

abbrev a_disk : Disk Content
a_disk place name =
    if place == a_place then (if name == "snapshot_pre2" then some second else none) else none

abbrev pub some_ends : (method : String) → Disk Content → Ends tools daemon
some_ends method disk = record {
  source = record {
    method = method;
    state = "measure";
    records = empty;
    ssh_handle = false;
    host = record { containers = put empty a_container 5; disk = disk };
    sent = [];
  };
  dest = record {
    records = empty;
    sockets = empty;
    host = record { containers = empty; disk = λ place. empty };
    sent = [];
  };
}

-- The container counts on between the two commands.
abbrev counts : Dict ℕ → Dict ℕ
counts cs = put cs a_container 6

pages_plain : contains "tar.gz.img" "pages-1.img" ≡ false
unfolding contains
pages_plain = refl

config_plain : contains "tar.gz.img" "config" ≡ false
unfolding contains
config_plain = refl

archive_ends : ends_with ".tar.gz.img" "tmp.tar.gz.img" ≡ true
unfolding ends_with
archive_ends = refl

final_IsCarried :
    IsCarried {C = Content}
      (("pages-1.img", 6 ∷ []) ∷ ("tmp.tar.gz.img", 7 ∷ []) ∷ ("config", 8 ∷ []) ∷ [])
unfolding file_of
final_IsCarried name there packed = ground (
  arith,
  eq_iff "pages-1.img" name,
  eq_iff "tmp.tar.gz.img" name,
  eq_iff "config" name,
  pages_plain,
  config_plain,
  archive_ends,
)

opens : find_open_port (λ port. true) ≡ some 9900
unfolding find_open_port find_port
opens = refl

migration-relocates_example :
    ((migration (λ port. true) "10.0.0.1" counts true a_service (some_ends "delta" a_disk)).0
      ≡ return tt)
    × (containers_of
          (migration (λ port. true) "10.0.0.1" counts true a_service (some_ends "delta" a_disk)).1
        ≡ relocate tools daemon (init a_service) 9900 (counts (put empty a_container 5), empty))
unfolding init get_container_name get_checkpoint_folder get_snapshot_name_pre
migration-relocates_example =
    migration-relocates tools daemon tools-IsDocumented a_service (λ port. true) "10.0.0.1" counts
      true 9900 second
      (("pages-1.img", 5 ∷ []) ∷ ("tmp.tar.gz.img", 7 ∷ []) ∷ ("config", 8 ∷ []) ∷ [])
      (some_ends "delta" a_disk) refl refl (λ name. refl) refl refl opens final_IsCarried

restore-diff_example :
    file_of "b"
      (create_xdelta_patch tools [] [] (create_xdelta_diff tools [] (("b", 3 ∷ []) ∷ []) []))
    ≡ some (3 ∷ [])
unfolding file_of contains
restore-diff_example =
    restore-diff tools tools-IsDocumented [] [] (("b", 3 ∷ []) ∷ []) []
      (create_xdelta_diff tools [] (("b", 3 ∷ []) ∷ []) []) "b" (λ plain. refl) refl

handle_cmd_prepare_unmeasured_example :
    ((Source.handle_cmd_prepare a_service (some_ends "delta" (λ place. empty))).0
      ≡ raise called_process_error)
    × ((Source.handle_cmd_prepare a_service (some_ends "delta" (λ place. empty))).1.source.sent
        ≡ [])
    × ((Source.handle_cmd_prepare a_service (some_ends "delta" (λ place. empty))).1.dest
        ≡ (some_ends "delta" (λ place. empty)).dest)
handle_cmd_prepare_unmeasured_example =
    handle_cmd_prepare_unmeasured tools daemon a_service (some_ends "delta" (λ place. empty)) refl
      refl

abbrev pub before : Ends tools daemon
before = some_ends "delta" (λ place. empty)

abbrev checkpoint_of : ℕ → Folder Content
checkpoint_of memory =
    ("pages-1.img", memory ∷ []) ∷ ("tmp.tar.gz.img", 7 ∷ []) ∷ ("config", 8 ∷ []) ∷ []

abbrev worked : Ends tools daemon
worked =
    Measuring.worked tools daemon a_service 3 4 counts (checkpoint_of 5) (checkpoint_of 6) before

measurement-reports_example :
    (Source.handle_cmd_pre_measure a_service before ≡ (
      return tt,
      Measuring.started tools daemon a_service 3 4 counts
          (checkpoint_of 5)
          (checkpoint_of 6)
          before,
    ))
    × ((Source.handle_cmd_measure_dirty 3 4 a_service worked).0 ≡ return tt)
    × ((Source.handle_cmd_measure_dirty 3 4 a_service worked).1.source.sent
        ≡ dirty_rate (
            with_sizes 3 4
              (du (create_xdelta_diff tools (checkpoint_of 5) (checkpoint_of 6) []))
              4099
              a_service)
          ∷ [])
unfolding init get_container_name docker_verify docker_checkpoint
measurement-reports_example =
    measurement-reports tools daemon a_service 3 4 counts (checkpoint_of 5) (checkpoint_of 6) before
      refl refl refl
