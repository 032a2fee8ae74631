-- ===== src/Country/Csv/Valid.antt =====
-- What the block rows of a country give is in range.
use go_run.Prelude.{
  ℕ, zero, suc, ◌≡◌, refl, String, Bool, true, false, Option, none, some, List, [], ◌∷◌, get_elem?,
}
use go_run.Strings.Keys.{has_key}
use go_run.Netip.{unset, v4, v6, Prefix, prefix, addr, is4}
use go_run.Netip.Text.{parse_prefix}
use go_run.Netip.Text.Range.{parse_prefix-InRange}
use go_run.CidrList.Laws.{AllOk, OneOk, push-AllOk}
use go_run.Country.Csv.{
  Row, index_of, block_id, block_prefix, read_network, read_blocks, with_block_columns,
  load_blocks_for_geonames,
}

read_blocks-AllOk :
    (parse6 : String → Option ℕ) (idx_net : ℕ) (idx_geo idx_reg : Option ℕ) (ids : List String)
    (rows : List Row)
    → AllOk (read_blocks parse6 idx_net idx_geo idx_reg ids rows)
unfolding read_blocks block_prefix addr is4 read_network
read_blocks-AllOk parse6 idx_net idx_geo idx_reg ids [] = tt
read_blocks-AllOk parse6 idx_net idx_geo idx_reg ids (none ∷ rows) = tt
read_blocks-AllOk parse6 idx_net idx_geo idx_reg ids (some rec ∷ rows) =
    push-AllOk _ _
      (read_network-OneOk (has_key (block_id idx_geo idx_reg rec) ids) (get_elem? rec idx_net))
      (read_blocks-AllOk parse6 idx_net idx_geo idx_reg ids rows)
  where
    block_prefix-OneOk :
        (text s : String) (o : Option Prefix)
        → parse_prefix parse6 s ≡ o
        → OneOk (block_prefix text o)
    block_prefix-OneOk text s none e = tt
    block_prefix-OneOk text s (some (prefix (v6 n) k)) e = tt
    block_prefix-OneOk text s (some (prefix unset k)) e = tt
    block_prefix-OneOk text s (some (prefix (v4 n) (suc b))) e =
        parse_prefix-InRange parse6 s (prefix (v4 n) (suc b)) e
    block_prefix-OneOk text s (some (prefix (v4 n) zero)) e =
        absurd (parse_prefix-InRange parse6 s (prefix (v4 n) zero) e)

    read_network-OneOk :
        (wanted : Bool) (text : Option String) → OneOk (read_network parse6 wanted text)
    read_network-OneOk true none = tt
    read_network-OneOk false none = tt
    read_network-OneOk false (some text) = tt
    read_network-OneOk true (some text) =
        block_prefix-OneOk text text (parse_prefix parse6 text) refl

-- Every prefix that the block rows give is a valid IPv4 prefix.
pub load_blocks_for_geonames-AllOk :
    (parse6 : String → Option ℕ) (rows : List Row) (ids : List String)
    → AllOk (load_blocks_for_geonames parse6 rows ids)
unfolding load_blocks_for_geonames with_block_columns
load_blocks_for_geonames-AllOk parse6 [] ids = tt
load_blocks_for_geonames-AllOk parse6 (none ∷ rows) ids = tt
load_blocks_for_geonames-AllOk parse6 (some header ∷ rows) ids = columns (index_of header "network")
  where
    columns :
        (o : Option ℕ)
        → AllOk (
            with_block_columns parse6 o
              (index_of header "geoname_id")
              (index_of header "registered_country_geoname_id")
              ids
              rows)
    columns none = tt
    columns (some idx_net) =
        read_blocks-AllOk parse6 idx_net (index_of header "geoname_id")
          (index_of header "registered_country_geoname_id") ids rows
