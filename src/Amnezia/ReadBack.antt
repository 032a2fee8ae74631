-- ===== src/Amnezia/ReadBack.antt =====
-- The prefixes can be read back from the sites.
use go_run.Prelude.{ℕ, zero, suc, ◌+◌, ◌≡◌, refl, ap, String, Option, some, List, [], ◌∷◌, All}
use go_run.Strings.{◌<>◌, decimal}
use go_run.Netip.{unset, v4, v6, Prefix, prefix}
use go_run.Netip.Text.{parse_prefix}
use go_run.Netip.Text.RoundTrip.{parse_prefix-prefix_text}
use go_run.Collapse.Coverage.{IsIpv4}
use go_run.Amnezia.{
  Format, official, ios, parse_format, Site, encode_site, sites_from, sites_in, encode_sites,
}

-- The shape of the site number `i` in a format. For `official` the name is the prefix `p`, and there
-- is no address; for `ios` the address is the prefix, and the name is a number from 1 on.
abbrev pub HasShape : (String → Option ℕ) → Format → ℕ → Prefix → Site → Type 0
HasShape parse6 official i p s = (parse_prefix parse6 s.hostname ≡ some p) × (s.ip ≡ "")
HasShape parse6 ios i p s =
    (parse_prefix parse6 s.ip ≡ some p) × (s.hostname ≡ "site-" <> decimal (i + 1))

-- The sites have the shapes of the prefixes, in their order; the first one has the number `i`.
pub data HaveShapes (parse6 : String → Option ℕ) (f : Format)
    : ℕ → List Prefix → List Site → Type 0 where
  no_site : (i : ℕ) → HaveShapes parse6 f i [] []
  one_more :
      (i : ℕ) (p : Prefix) (ps : List Prefix) (s : Site) (sites : List Site)
      → HasShape parse6 f i p s
      → HaveShapes parse6 f (suc i) ps sites
      → HaveShapes parse6 f i (p ∷ ps) (s ∷ sites)

module _ (parse6 : String → Option ℕ) where
  encode_site-HasShape :
      (f : Format) (i : ℕ) (p : Prefix) → IsIpv4 p → HasShape parse6 f i p (encode_site f i p)
  unfolding encode_site
  encode_site-HasShape official i (prefix (v4 n) (suc b)) (h, k) =
      (parse_prefix-prefix_text parse6 n b k h, refl)
  encode_site-HasShape ios i (prefix (v4 n) (suc b)) (h, k) =
      (parse_prefix-prefix_text parse6 n b k h, refl)
  encode_site-HasShape f i (prefix (v4 n) zero) h = absurd h
  encode_site-HasShape f i (prefix unset k) h = absurd h
  encode_site-HasShape f i (prefix (v6 n) k) h = absurd h

  sites_from-HaveShapes :
      (f : Format) (i : ℕ) (ps : List Prefix)
      → All IsIpv4 ps
      → HaveShapes parse6 f i ps (sites_from f i ps)
  unfolding sites_from
  sites_from-HaveShapes f i [] h = no_site i
  sites_from-HaveShapes f i (p ∷ ps) (h, hs) =
      one_more i p ps (encode_site f i p) (sites_from f (suc i) ps) (encode_site-HasShape f i p h)
        (sites_from-HaveShapes f (suc i) ps hs)

  -- Valid IPv4 prefixes are encoded in the format that `format` names, one site each, in their order.
  -- For `official` the prefix is read back from the name of its site, and the site has no address;
  -- for `ios` it is read back from the address, and the sites are named site-1, site-2 and so on.
  pub encode_sites-read :
      (format : String) (f : Format) (ps : List Prefix)
      → parse_format format ≡ some f
      → All IsIpv4 ps
      → (sites : List Site) × (encode_sites ps format ≡ some sites) × HaveShapes parse6 f 0 ps sites
  unfolding encode_sites sites_in
  encode_sites-read format f ps known h =
      (sites_from f 0 ps, ap (sites_in ps) known, sites_from-HaveShapes f 0 ps h)
