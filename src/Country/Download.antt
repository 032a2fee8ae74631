-- ===== src/Country/Download.antt =====
-- maxmind.go: the download of MaxMind's CSV files, the unpacking and the search for them. The web, the
-- decoders of archives and the file system are parameters.
use go_run.Prelude.{
  ℕ, String, Bool, not, ◌||◌, Option, none, some, List, [], ◌∷◌, ◌==◌, str_eq, if◌then◌else◌,
}
use go_run.Prelude.Result.{Result, ok, err, ◌>>=◌}
use go_run.Strings.{◌<>◌, has_suffix}
use go_run.Country.{Dir, Sources}
use go_run.Country.Csv.{CountryError, download_failed}
use go_run.Country.Mmdb.{Network}
use go_run.Country.Archive.{Entry, Op, ArchiveError, FileSystem, extract_zip, extract_tar_gz}

-- An answer of a server: its status, its body, and whether the body can be saved whole
pub record Response (B : Type 0) : Type 0 where
  pub status : ℕ
  pub body : B
  pub saves : Bool

-- `download`: what is saved, or nothing where it fails
unfoldable pub save_response : {B : Type 0} → Option (Response B) → Option B
save_response none = none
save_response (some r) =
    if not (r.status == 200) then none else if r.saves then some r.body else none

-- One step of `Walk`: an error, or a file or directory by the directory that it is in and its name
abbrev pub Visit : Type 0
Visit = Option (String × String × Bool)

-- `findCSVDir`: the walk ends at the first file of locations, or at an error
unfoldable pub find_csv_dir : List Visit → Option String
unfolding has_suffix
find_csv_dir [] = none
find_csv_dir (none ∷ visits) = none
find_csv_dir (some (dir, name, is_dir) ∷ visits) =
    let rest = find_csv_dir visits in
    if is_dir
    then rest
    else if has_suffix name "Locations-en.csv" || str_eq name "GeoLite2-Country-Locations-en.csv"
    then some dir
    else rest

zip_url : String → String
zip_url key =
    "https://download.maxmind.com/app/geoip_download?edition_id=GeoLite2-Country-CSV&license_key="
    <> key <> "&suffix=zip"

tar_gz_url : String → String
tar_gz_url key =
    "https://download.maxmind.com/app/geoip_download?edition_id=GeoLite2-Country-CSV&license_key="
    <> key <> "&suffix=tar.gz"

-- The web, the decoders of archives, and the machine: the temporary directory, whether operations
-- on its files fail, and after the operations the walk over that directory and what it holds
pub record Outside (B : Type 0) : Type 0 where
  pub get : String → Option (Response B)
  pub unzip : B → Option (List Entry)
  pub untar : B → Option (List Entry × Bool)
  pub make_temp : Option String
  pub fs : FileSystem
  pub walk : List Op → List Visit
  pub dir_at : List Op → String → Dir

or_failed : {A : Type 0} → Option A → Result CountryError A
or_failed none = err download_failed
or_failed (some a) = ok a

whole_archive : List Op → Option ArchiveError → Result CountryError (List Op)
whole_archive ops none = ok ops
whole_archive ops (some e) = err download_failed

module _ {B : Type 0} (out : Outside B) where
  unpack_zip : String → B → Result CountryError (List Op)
  unfolding or_failed whole_archive extract_zip
  unpack_zip tmp body = do
    entries ← or_failed (out.unzip body)
    let done = extract_zip out.fs tmp entries
    whole_archive done.0 done.1

  unpack_tar_gz : String → B → Result CountryError (List Op)
  unfolding or_failed whole_archive extract_tar_gz
  unpack_tar_gz tmp body = do
    entries ← or_failed (out.untar body)
    let done = extract_tar_gz out.fs tmp entries.1 entries.0
    whole_archive done.0 done.1

  -- The archive as zip, or as tar.gz where that download fails
  fetch_archive : String → String → Option B → Result CountryError (List Op)
  unfolding unpack_zip unpack_tar_gz or_failed save_response tar_gz_url
  fetch_archive key tmp (some body) = unpack_zip tmp body
  fetch_archive key tmp none = do
    body ← or_failed (save_response (out.get (tar_gz_url key)))
    unpack_tar_gz tmp body

  -- `DownloadGeoLite2CountryPrefixes` from the license key to the directory with the CSV files
  unfoldable pub download_dir : String → Result CountryError Dir
  unfolding or_failed fetch_archive save_response zip_url find_csv_dir
  download_dir key = do
    tmp ← or_failed out.make_temp
    ops ← fetch_archive key tmp (save_response (out.get (zip_url key)))
    csv ← or_failed (find_csv_dir (out.walk ops))
    ok (out.dir_at ops csv)

  -- The sources of networks, with the files that can be opened as MMDB files
  unfoldable pub country_sources : (String → Option (List Network × Bool)) → Sources
  unfolding download_dir
  country_sources open_mmdb = record { open_mmdb = open_mmdb; download = download_dir }
