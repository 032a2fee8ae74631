-- ===== src/Country.antt =====
-- internal/prefixes: the IPv4 networks of a country, from MaxMind's CSV files or its MMDB file
-- (parse.go, mmdb.go, maxmind.go, zip.go). The file system, the web and the MMDB reader are
-- parameters.
pub mod Csv
pub mod Mmdb
pub mod Load
pub mod Archive
pub mod Download
mod Tests
use go_run.Prelude.{
  ℕ, String, Bool, true, false, not, ◌&&◌, ◌||◌, Option, none, some, List, [], ◌∷◌, str_eq,
  if◌then◌else◌, any,
}
use go_run.Prelude.Result.{Result, ok, err, ◌>>=◌}
use go_run.Strings.{has_suffix}
use go_run.Netip.{Prefix}
use go_run.Collapse.{collapse_ipv4}
use go_run.Country.Csv.{
  CountryError, missing_files, open_failed, no_license, Row, load_country_geonames,
  load_blocks_for_geonames,
}
use go_run.Country.Mmdb.{Network, extract_country}

-- The entries of a directory, each with whether it is a directory itself (`none` where it cannot be
-- read), and the CSV files in it that can be opened
pub record Dir : Type 0 where
  pub entries : Option (List (String × Bool))
  pub open_csv : String → Option (List Row)

find_regular : List (String × Bool) → List String → Option String
unfolding has_suffix
find_regular [] names = none
find_regular ((name, is_dir) ∷ entries) names =
    let rest = find_regular entries names in
    if not is_dir && any (λ n. str_eq name n || has_suffix name n) names then some name else rest

-- The paths that exist as they are named
find_exact : List (String × Bool) → List String → Option String
find_exact entries [] = none
find_exact entries (n ∷ names) =
    let rest = find_exact entries names in if any (λ e. str_eq e.0 n) entries then some n else rest

or_else : Option String → Option String → Option String
or_else none other = other
or_else (some s) other = some s

-- `findFile`; `none` is the empty path
unfoldable pub find_file : Option (List (String × Bool)) → List String → Option String
unfolding find_regular find_exact or_else
find_file none names = none
find_file (some entries) names = or_else (find_regular entries names) (find_exact entries names)

opened : Option (List Row) → String → Result CountryError (List Row)
opened none name = err (open_failed name)
opened (some rows) name = ok rows

from_files :
    (String → Option ℕ)
    → Dir
    → Option String
    → Option String
    → String
    → Result CountryError (List Prefix)
unfolding opened load_country_geonames load_blocks_for_geonames
from_files parse6 dir (some locations) (some blocks) iso = do
  location_rows ← opened (dir.open_csv locations) locations
  ids ← load_country_geonames location_rows iso
  block_rows ← opened (dir.open_csv blocks) blocks
  load_blocks_for_geonames parse6 block_rows ids
from_files parse6 dir _ _ iso = err missing_files

-- `ParseMaxMindCountryDir`
unfoldable pub parse_max_mind_country_dir :
    (String → Option ℕ) → Dir → String → Result CountryError (List Prefix)
unfolding from_files find_file
parse_max_mind_country_dir parse6 dir iso =
    from_files parse6 dir
      (find_file dir.entries ("Locations-en.csv" ∷ "GeoLite2-Country-Locations-en.csv" ∷ []))
      (find_file dir.entries ("Blocks-IPv4.csv" ∷ "GeoLite2-Country-Blocks-IPv4.csv" ∷ [])) iso

-- Where prefixes come from: the MMDB files that can be opened, and the directory that a download
-- with a license key leaves
pub record Sources : Type 0 where
  pub open_mmdb : String → Option (List Network × Bool)
  pub download : String → Result CountryError Dir

-- `DownloadGeoLite2CountryPrefixes`; the download up to the directory is in Download
unfoldable pub download_country :
    (String → Option ℕ) → Sources → String → String → Result CountryError (List Prefix)
unfolding parse_max_mind_country_dir
download_country parse6 sources license iso =
    if str_eq license ""
    then err no_license
    else do dir ← sources.download license; parse_max_mind_country_dir parse6 dir iso

from_mmdb : Option (List Network × Bool) → String → String → Result CountryError (List Prefix)
unfolding extract_country
from_mmdb none path iso = err (open_failed path)
from_mmdb (some (networks, failed)) path iso = extract_country networks failed iso

-- `LoadCountryPrefixesRaw`
unfoldable pub load_country_prefixes_raw :
    (String → Option ℕ) → Sources → String → String → String → Result CountryError (List Prefix)
unfolding from_mmdb download_country
load_country_prefixes_raw parse6 sources license iso path =
    if not (str_eq path "")
    then from_mmdb (sources.open_mmdb path) path iso
    else download_country parse6 sources license iso

-- `LoadCountryPrefixes`; the result is `none` where `CollapseIPv4` panics
unfoldable pub load_country_prefixes :
    (String → Option ℕ)
    → Sources
    → String
    → String
    → String
    → Result CountryError (Option (List Prefix))
unfolding load_country_prefixes_raw
load_country_prefixes parse6 sources license iso path = do
  ps ← load_country_prefixes_raw parse6 sources license iso path
  ok (collapse_ipv4 ps)
