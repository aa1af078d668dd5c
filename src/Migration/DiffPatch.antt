-- ===== src/Migration/DiffPatch.antt =====
-- diff_patch.py: the difference of two folders, file by file, and the folder restored from it. The
-- commands `xdelta` and `rsync` are outside the repository: `delta` gives the patch file and `patch`
-- the new file, none where the command exits with code 2, as it does without the old file; `sends`
-- tells the files that rsync transfers under a pair of include and exclude patterns.
pub mod Laws
use mec_measurements.Prelude.{
  ℕ, String, Bool, true, false, not, ◌||◌, Option, none, some, get_or, ◌≡◌,
}
use mec_measurements.Prelude.Dict.{Dict}
use mec_measurements.Migration.Names.{contains, ends_with}
use mec_measurements.Migration.Files.{Folder, file_of, transfer}

pub record Tools : Type 1 where
  pub Content : Type 0
  -- the number that `du -sb` writes of a folder: the bytes of its files and those of the folder's own
  -- entry; the code keeps the text of the number
  pub du : Folder Content → ℕ
  -- whether a checkpoint folder exists on a disk, where no folder in it tells so
  pub has_place : (String → Dict (Folder Content)) → String → Bool
  pub delta : (old : Option Content) (new : Content) → Option Content
  pub patch : (patch : Content) (old : Option Content) → Option Content
  pub sends : Option (String × String) → String → Bool

-- What the commands document: xdelta's patch of its difference is the new file, and a file that it
-- did not make is no patch; rsync goes by the first pattern that fits, and sends what none fits.
pub record IsDocumented (t : Tools) : Type 0 where
  pub patch-delta :
      (old : Option t.Content) (new p : t.Content)
      → t.delta old new ≡ some p
      → t.patch p old ≡ some new
  pub patch-raw :
      (old : Option t.Content) (new : t.Content) → t.delta old new ≡ none → t.patch new old ≡ none
  pub sends_all : (name : String) → t.sends none name ≡ true
  pub sends_small :
      (name : String)
      → t.sends (some ("*.tar.gz.img", "*.img")) name
        ≡ (ends_with ".tar.gz.img" name || not (ends_with ".img" name))

-- What a difference compares.
unfoldable pub is_compared : String → Bool
is_compared name = not (contains "tar.gz.img" name)

module _ (t : Tools) where
  open t use {Content, delta, patch}

  -- The patch file: a file that cannot be compared is copied.
  unfoldable pub xdelta_delta : Folder Content → String → Content → Content
  xdelta_delta old name new = get_or (delta (file_of name old) new) new

  -- The new file: a patch that cannot be applied is copied.
  unfoldable pub xdelta_patch : Folder Content → String → Content → Content
  xdelta_patch old name p = get_or (patch p (file_of name old)) p

  unfoldable pub create_xdelta_diff : (old new patch : Folder Content) → Folder Content
  create_xdelta_diff old new p = transfer is_compared (xdelta_delta old) new p

  unfoldable pub create_xdelta_patch : (old new patch : Folder Content) → Folder Content
  create_xdelta_patch old new p = transfer (λ name. true) (xdelta_patch old) p new
