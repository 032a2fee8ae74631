-- ===== src/Country/Tests.antt =====
-- A directory with two rows of each file, and an MMDB file with two records.
use go_run.Prelude.{
  ℕ, ◌+◌, ◌*◌, ◌^◌, ◌≡◌, refl, String, true, false, Option, none, some, List, [], ◌∷◌, str_eq,
  if◌then◌else◌, any, arith,
}
use go_run.Prelude.Result.{ok, err}
use go_run.Strings.{to_upper, has_suffix, split}
use go_run.Netip.{v4, Prefix, prefix, prefix_from, addr, is4}
use go_run.Netip.Text.{parse_prefix}
use go_run.Collapse.Coverage.{covers}
use go_run.Country.{
  Dir, Sources, find_file, parse_max_mind_country_dir, load_country_prefixes_raw,
  load_country_prefixes,
}
use go_run.Country.Csv.{
  CountryError, no_license, Row, index_of, location_id, block_id, load_country_geonames,
  load_blocks_for_geonames,
}
use go_run.Country.Csv.Covers.{is_location, row_contains, load_blocks_for_geonames-covers}
use go_run.Country.Download.{find_csv_dir}
use go_run.Country.Mmdb.{Network, extract_country}
use go_run.Country.Load.{load_country_prefixes-covers}

abbrev no_ipv6 : String → Option ℕ
no_ipv6 s = none

abbrev location_header : List String
location_header = "geoname_id" ∷ "locale_code" ∷ "country_iso_code" ∷ []

abbrev block_header : List String
block_header = "network" ∷ "geoname_id" ∷ "registered_country_geoname_id" ∷ []

abbrev location_rows : List Row
location_rows = some ("1" ∷ "en" ∷ "De" ∷ []) ∷ some ("2" ∷ "en" ∷ "FR" ∷ []) ∷ []

abbrev block_rows : List Row
block_rows = some ("10.0.0.0/8" ∷ "2" ∷ "1" ∷ []) ∷ some ("11.0.0.0/8" ∷ "" ∷ "1" ∷ []) ∷ []

abbrev eleven : List Prefix
eleven = prefix (v4 (11 * 2 ^ 24)) 9 ∷ []

abbrev dir : Dir
dir = record {
  entries = some (("a-Locations-en.csv", false) ∷ ("a-Blocks-IPv4.csv", false) ∷ []);
  open_csv = λ name.
      if str_eq name "a-Locations-en.csv"
      then some (some location_header ∷ location_rows)
      else some (some block_header ∷ block_rows);
}

of_dir : parse_max_mind_country_dir no_ipv6 dir "de" ≡ ok eleven
unfolding parse_max_mind_country_dir find_file has_suffix load_country_geonames index_of to_upper
    location_id load_blocks_for_geonames block_id parse_prefix split is4 addr
of_dir = refl

load_blocks_for_geonames-covers_example :
    covers eleven (11 * 2 ^ 24 + 5)
    ≡ any
        (row_contains
          (11 * 2 ^ 24 + 5)
          no_ipv6
          0
          (index_of block_header "geoname_id")
          (index_of block_header "registered_country_geoname_id")
          (λ k. any (is_location 0 2 "de" k) location_rows))
        block_rows
unfolding index_of load_country_geonames location_id to_upper load_blocks_for_geonames block_id
    parse_prefix split is4 addr
load_blocks_for_geonames-covers_example =
    load_blocks_for_geonames-covers no_ipv6 "de" (11 * 2 ^ 24 + 5) 0 2 0 location_header
      block_header location_rows block_rows ("1" ∷ []) eleven refl refl refl refl refl

abbrev networks : List Network
networks =
    some (
      record { iso_code = ""; registered_iso_code = "DE" },
      some (record { ip4 = some (11 * 2 ^ 24); ones = 8; bits = 32 }),
    )
    ∷ some (record { iso_code = "FR"; registered_iso_code = "DE" }, none)
    ∷ []

abbrev sources : Sources
sources = record {
  open_mmdb = λ path. some (networks, false);
  download = λ license. err no_license;
}

load_country_prefixes-covers_example :
    ((e : CountryError)
      → load_country_prefixes_raw no_ipv6 sources "" "de" "db" ≡ err e
      → load_country_prefixes no_ipv6 sources "" "de" "db" ≡ err e)
    × ((ps : List Prefix)
        → load_country_prefixes_raw no_ipv6 sources "" "de" "db" ≡ ok ps
        → (r : List Prefix) × (load_country_prefixes no_ipv6 sources "" "de" "db" ≡ ok (some r))
          × ((x : ℕ) → covers r x ≡ covers ps x))
load_country_prefixes-covers_example =
    load_country_prefixes-covers no_ipv6 sources "" "de" "db" ((omega arith, omega arith), (tt, tt))

of_mmdb : extract_country networks false "de" ≡ ok eleven
unfolding extract_country prefix_from to_upper
of_mmdb = refl

-- The walk ends at the first file of locations, before an error that comes later.
found_csv :
    find_csv_dir
      (some ("/t", "x", true) ∷ some ("/t/x", "GeoLite2-Locations-en.csv", false) ∷ none ∷ [])
    ≡ some "/t/x"
unfolding find_csv_dir
found_csv = refl
