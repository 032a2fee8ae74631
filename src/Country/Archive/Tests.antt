-- ===== src/Country/Archive/Tests.antt =====
-- An archive with an entry that climbs out of the directory.
use go_run.Prelude.{◌≡◌, refl, true, false, some, List, [], ◌∷◌, All}
use go_run.Strings.{has_prefix}
use go_run.Country.Archive.{
  Entry, directory, regular, make_dir, create, illegal_path, FileSystem, extract_zip,
  extract_tar_gz,
}
use go_run.Country.Archive.Paths.{clean, dir_of}
use go_run.Country.Archive.Inside.{StaysIn, extract-StaysIn}

-- Nothing fails.
abbrev healthy : FileSystem
healthy = λ done op. false

abbrev entries : List Entry
entries =
    record { name = "geo/"; kind = directory; opens = true; copies = true }
    ∷ record { name = "geo/x/../a.csv"; kind = regular; opens = true; copies = true }
    ∷ record { name = "../b"; kind = regular; opens = true; copies = true }
    ∷ record { name = "c"; kind = regular; opens = true; copies = true }
    ∷ []

extract-StaysIn_example :
    All (StaysIn "/tmp/d") (extract_zip healthy "/tmp/d" entries).0
    × All (StaysIn "/tmp/d") (extract_tar_gz healthy "/tmp/d" false entries).0
unfolding has_prefix
extract-StaysIn_example = extract-StaysIn healthy "/tmp/d" false entries refl

unpacked : extract_zip healthy "/tmp/d" entries ≡ (
  make_dir "/tmp/d/geo" ∷ make_dir "/tmp/d/geo" ∷ create "/tmp/d/geo/a.csv" ∷ [],
  some (illegal_path "../b"),
)
unfolding extract_zip
unpacked = refl

cleaned : clean "a/./b//../../.." ≡ ".."
unfolding clean
cleaned = refl

-- A file that is named like the directory itself: the directory above it is made.
named_dot :
    (extract_zip healthy "/tmp/d"
      (record { name = "."; kind = regular; opens = true; copies = true } ∷ [])).0
    ≡ make_dir "/tmp" ∷ create "/tmp/d" ∷ []
unfolding extract_zip
named_dot = refl

dirs :
    (dir_of "/a/b/" ≡ "/a/b")
    × (dir_of "/a/../b/c" ≡ "/b")
    × (dir_of "a" ≡ ".")
    × (dir_of "/" ≡ "/")
unfolding dir_of
dirs = (refl, refl, refl, refl)
