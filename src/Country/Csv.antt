-- ===== src/Country/Csv.antt =====
-- internal/prefixes/parse.go: the networks of a country in MaxMind's CSV files. A file is what
-- `csv.Reader` yields; `none` is an error of the reader.
pub mod Covers
pub mod Valid
use mathlib.Core.Option
use go_run.Prelude.{
  ℕ, zero, suc, ◌+◌, String, Bool, true, false, not, ◌&&◌, ◌||◌, Option, none, some, List, [], ◌∷◌,
  str_eq, ◌==◌, if◌then◌else◌, get_elem?, any,
}
use go_run.Prelude.Result.{Result, ok, err, ◌>>=◌}
use go_run.Strings.{to_upper, has_suffix}
use go_run.Strings.Keys.{has_key, insert_key}
use go_run.Netip.{Addr, v4, Prefix, prefix, prefix_from, addr, is4, is6}
use go_run.Netip.Text.{parse_prefix}
use go_run.Collapse.{collapse_ipv4}
use go_run.CidrList.{push}

pub data CountryError : Type 0 where
  missing_files : CountryError
  open_failed : String → CountryError
  bad_csv : CountryError
  no_header : CountryError
  missing_columns : CountryError
  bad_network : String → CountryError
  bad_record : CountryError
  no_license : CountryError
  download_failed : CountryError

abbrev pub Row : Type 0
Row = Option (List String)

index_from : ℕ → List String → String → Option ℕ
index_from i [] name = none
index_from i (h ∷ header) name =
    let rest = index_from (suc i) header name in if str_eq h name then some i else rest

-- `indexOf`; `none` is -1
unfoldable pub index_of : List String → String → Option ℕ
unfolding index_from
index_of header name = index_from 0 header name

-- The field at an index that may be missing
abbrev pub field_at : Option ℕ → List String → Option String
field_at none rec = none
field_at (some i) rec = get_elem? rec i

-- The geoname id of a location row of the country
unfoldable pub location_id : ℕ → ℕ → String → List String → Option String
unfolding to_upper
location_id idx_id idx_iso want rec = elim (get_elem? rec idx_iso) [
  | none ↦ none
  | some iso ↦ if str_eq (to_upper iso) want then get_elem? rec idx_id else none
]

abbrev pub add_id : Option String → List String → List String
add_id none ids = ids
add_id (some k) ids = insert_key k ids

unfoldable pub read_locations :
    ℕ → ℕ → String → List String → List Row → Result CountryError (List String)
unfolding location_id
read_locations idx_id idx_iso want ids [] = ok ids
read_locations idx_id idx_iso want ids (none ∷ rows) = err bad_csv
read_locations idx_id idx_iso want ids (some rec ∷ rows) =
    read_locations idx_id idx_iso want (add_id (location_id idx_id idx_iso want rec) ids) rows

unfoldable pub with_location_columns :
    Option ℕ → Option ℕ → String → List Row → Result CountryError (List String)
unfolding read_locations
with_location_columns (some idx_id) (some idx_iso) want rows =
    read_locations idx_id idx_iso want [] rows
with_location_columns _ _ want rows = err missing_columns

-- `loadCountryGeonames` once the file is open
unfoldable pub load_country_geonames : List Row → String → Result CountryError (List String)
unfolding with_location_columns index_of to_upper
load_country_geonames [] iso = err no_header
load_country_geonames (none ∷ rows) iso = err bad_csv
load_country_geonames (some header ∷ rows) iso =
    with_location_columns (index_of header "geoname_id") (index_of header "country_iso_code")
      (to_upper iso) rows

abbrev pub or_empty : Option String → String
or_empty none = ""
or_empty (some s) = s

-- The geoname id of a block: its own, or that of the country it is registered in
unfoldable pub block_id : Option ℕ → Option ℕ → List String → String
block_id idx_geo idx_reg rec =
    let own = or_empty (field_at idx_geo rec) in
    if str_eq own "" then or_empty (field_at idx_reg rec) else own

unfoldable pub block_prefix : String → Option Prefix → Result CountryError (Option Prefix)
block_prefix text none = err (bad_network text)
block_prefix text (some p) = ok (if is4 (addr p) then some p else none)

-- The network of a block row, if its geoname id is wanted
unfoldable pub read_network :
    (String → Option ℕ) → Bool → Option String → Result CountryError (Option Prefix)
unfolding block_prefix parse_prefix
read_network parse6 wanted none = ok none
read_network parse6 wanted (some text) =
    if wanted then block_prefix text (parse_prefix parse6 text) else ok none

unfoldable pub read_blocks :
    (String → Option ℕ)
    → ℕ
    → Option ℕ
    → Option ℕ
    → List String
    → List Row
    → Result CountryError (List Prefix)
unfolding read_network block_id
read_blocks parse6 idx_net idx_geo idx_reg ids [] = ok []
read_blocks parse6 idx_net idx_geo idx_reg ids (none ∷ rows) = err bad_csv
read_blocks parse6 idx_net idx_geo idx_reg ids (some rec ∷ rows) = do
  p ← read_network parse6 (has_key (block_id idx_geo idx_reg rec) ids) (get_elem? rec idx_net)
  ps ← read_blocks parse6 idx_net idx_geo idx_reg ids rows
  ok (push p ps)

unfoldable pub with_block_columns :
    (String → Option ℕ)
    → Option ℕ
    → Option ℕ
    → Option ℕ
    → List String
    → List Row
    → Result CountryError (List Prefix)
unfolding read_blocks
with_block_columns parse6 none idx_geo idx_reg ids rows = err missing_columns
with_block_columns parse6 (some idx_net) idx_geo idx_reg ids rows =
    read_blocks parse6 idx_net idx_geo idx_reg ids rows

-- `loadBlocksForGeonames` once the file is open
unfoldable pub load_blocks_for_geonames :
    (String → Option ℕ) → List Row → List String → Result CountryError (List Prefix)
unfolding with_block_columns index_of
load_blocks_for_geonames parse6 [] ids = err no_header
load_blocks_for_geonames parse6 (none ∷ rows) ids = err bad_csv
load_blocks_for_geonames parse6 (some header ∷ rows) ids =
    with_block_columns parse6 (index_of header "network") (index_of header "geoname_id")
      (index_of header "registered_country_geoname_id") ids rows
