-- ===== src/Country/Archive.antt =====
-- maxmind.go and zip.go: the unpacking of a downloaded archive. The decoders of zip and tar are
-- parameters: they yield the entries.
pub mod Paths
pub mod Names
pub mod Dirs
pub mod Below
pub mod Inside
mod Tests
use Prim.Native.String
use go_run.Prelude.{
  String, Bool, true, false, not, ◌&&◌, Option, none, some, List, [], ◌∷◌, ◌++◌, str_eq,
  if◌then◌else◌,
}
use go_run.Strings.{◌<>◌, has_prefix}
use go_run.Country.Archive.Paths.{clean, join_path, dir_of}

pub data EntryKind : Type 0 where
  directory regular special : EntryKind

-- An entry, whether it can be opened and whether its bytes can be copied
pub record Entry : Type 0 where
  pub name : String
  pub kind : EntryKind
  pub opens : Bool
  pub copies : Bool

-- What is done to the file system: `MkdirAll` and `Create`
pub data Op : Type 0 where
  make_dir : String → Op
  create : String → Op

pub data ArchiveError : Type 0 where
  illegal_path : String → ArchiveError
  failed : Op → ArchiveError
  bad_entry : String → ArchiveError
  bad_archive : ArchiveError

-- The file system says, after what was done, whether the next operation fails.
abbrev pub FileSystem : Type 0
FileSystem = List Op → Op → Bool

abbrev pub Extracted : Type 0
Extracted = List Op × Option ArchiveError

-- `target` is below the cleaned `dest`, or is `dest`.
unfoldable pub is_legal : String → String → Bool
unfolding clean has_prefix
is_legal dest target = not (
    not (has_prefix (clean target) (clean dest <> "/")) && not (str_eq (clean target) (clean dest)))

unfoldable pub is_directory : EntryKind → Bool
is_directory directory = true
is_directory regular = false
is_directory special = false

unfoldable pub copied : Entry → (List Op → Extracted) → List Op → Extracted
copied e rest done = if e.copies then rest done else (done, some (bad_entry e.name))

module _ (fs : FileSystem) where
  unfoldable pub attempt : Op → (List Op → Extracted) → List Op → Extracted
  attempt op next done =
      let now = done ++ op ∷ [] in if fs done op then (now, some (failed op)) else next now

  unfoldable pub create_opened : String → Entry → (List Op → Extracted) → List Op → Extracted
  unfolding attempt copied
  create_opened target e rest now =
      if e.opens
      then attempt (create target) (copied e rest) now
      else (now, some (bad_entry e.name))

  -- What is done for an entry of a zip archive, and then the rest
  unfoldable pub zip_entry : String → Entry → (List Op → Extracted) → List Op → Extracted
  unfolding attempt create_opened is_directory dir_of
  zip_entry target e rest done =
      if is_directory e.kind
      then attempt (make_dir target) rest done
      else attempt (make_dir (dir_of target)) (create_opened target e rest) done

  tar_kind : EntryKind → String → Entry → (List Op → Extracted) → List Op → Extracted
  unfolding attempt copied dir_of
  tar_kind directory target e rest = attempt (make_dir target) rest
  tar_kind regular target e rest =
      attempt (make_dir (dir_of target)) (attempt (create target) (copied e rest))
  tar_kind special target e rest = rest

  -- The same for a tar archive
  unfoldable pub tar_entry : String → Entry → (List Op → Extracted) → List Op → Extracted
  unfolding tar_kind
  tar_entry target e = tar_kind e.kind target e

abbrev pub Step : Type 0
Step = String → Entry → (List Op → Extracted) → List Op → Extracted

unfoldable pub end_of : Bool → Option ArchiveError
end_of true = some bad_archive
end_of false = none

-- The loop over the entries; `broken` is an error after the last one
unfoldable pub extract : Step → String → Bool → List Entry → List Op → Extracted
unfolding is_legal join_path end_of
extract step dest broken [] done = (done, end_of broken)
extract step dest broken (e ∷ es) done =
    let target = join_path dest e.name in
    let go_on = step target e (extract step dest broken es) done in
    if is_legal dest target then go_on else (done, some (illegal_path e.name))

-- `extractZip` once the archive is open
unfoldable pub extract_zip : FileSystem → String → List Entry → Extracted
unfolding extract zip_entry
extract_zip fs dest es = extract (zip_entry fs) dest false es []

-- `extractTarGz` once the archive is open
unfoldable pub extract_tar_gz : FileSystem → String → Bool → List Entry → Extracted
unfolding extract tar_entry
extract_tar_gz fs dest broken es = extract (tar_entry fs) dest broken es []
