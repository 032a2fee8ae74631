-- ===== src/Amnezia.antt =====
-- internal/amnezia/sites.go: a list of prefixes as the sites that Amnezia imports. Turning the sites
-- into JSON text and writing the file are left out.
pub mod ReadBack
mod Tests
use go_run.Prelude.{
  ℕ, suc, ◌+◌, String, Option, none, some, List, [], ◌∷◌, str_eq, Bool, ◌||◌, if◌then◌else◌,
}
use go_run.Strings.{◌<>◌, to_lower, trim_space, decimal}
use go_run.Netip.{Prefix}
use go_run.Netip.Text.{prefix_text}

pub data Format : Type 0 where
  official ios : Format

-- `ParseFormat`
unfoldable pub parse_format : String → Option Format
unfolding to_lower trim_space
parse_format s =
    let name = to_lower (trim_space s) in
    if str_eq name "official" || str_eq name ""
    then some official
    else if str_eq name "ios"
    then some ios
    else none

pub record Site : Type 0 where
  pub hostname : String
  pub ip : String

unfoldable pub encode_site : Format → ℕ → Prefix → Site
unfolding prefix_text decimal
encode_site official i p = record { hostname = prefix_text p; ip = "" }
encode_site ios i p = record { hostname = "site-" <> decimal (i + 1); ip = prefix_text p }

-- The loop, from the index `i` on
unfoldable pub sites_from : Format → ℕ → List Prefix → List Site
unfolding encode_site
sites_from f i [] = []
sites_from f i (p ∷ ps) = encode_site f i p ∷ sites_from f (suc i) ps

sites_in : List Prefix → Option Format → Option (List Site)
unfolding sites_from
sites_in ps none = none
sites_in ps (some f) = some (sites_from f 0 ps)

-- `EncodeSites` up to the JSON text
unfoldable pub encode_sites : List Prefix → String → Option (List Site)
unfolding sites_in parse_format
encode_sites ps format = sites_in ps (parse_format format)
