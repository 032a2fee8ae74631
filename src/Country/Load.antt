-- ===== src/Country/Load.antt =====
-- The networks of a country on the way into the collapsed list.
use mathlib.Core.Path.{subst}
use go_run.Prelude.{
  ℕ, suc, ◌^◌, ◌≤◌, ◌<◌, ◌≡◌, refl, inl, inr, String, Bool, true, false, Option, none, some, List,
  [], ◌∷◌, All, str_eq, if◌then◌else◌, ◌==◌, leb, arith, Bool-cases,
}
use go_run.Prelude.Result.{Result, ok, err, ◌>>=◌}
use go_run.Strings.{to_upper}
use go_run.Netip.{Prefix, prefix_from, is_set, bit_len}
use go_run.Collapse.Coverage.{IsIpv4, covers, collapse_ipv4-covers}
use go_run.CidrList.Laws.{AllOk, OneOk, push-AllOk}
use go_run.Country.{
  Dir, Sources, opened, from_files, parse_max_mind_country_dir, download_country, from_mmdb,
  load_country_prefixes_raw, load_country_prefixes,
}
use go_run.Country.Csv.{CountryError, load_country_geonames}
use go_run.Country.Csv.Valid.{load_blocks_for_geonames-AllOk}
use go_run.Country.Mmdb.{
  CountryRecord, IpNet, Network, sized_prefix, ip_net_to_prefix, record_iso, extract_from,
  extract_country,
}

abbrev pub Ip4InRange : Option ℕ → Type 0
Ip4InRange none = Unit
Ip4InRange (some n) = n < 2 ^ 32

-- What the MMDB reader promises of a network: `To4` gives four bytes, and `Mask.Size` counts no
-- more ones than bits.
abbrev pub NetInRange : Network → Type 0
NetInRange none = Unit
NetInRange (some (rec, none)) = Unit
NetInRange (some (rec, some net)) = Ip4InRange net.ip4 × (net.ones ≤ net.bits)

abbrev pub MmdbInRange : Option (List Network × Bool) → Type 0
MmdbInRange none = Unit
MmdbInRange (some (networks, failed)) = All NetInRange networks

abbrev SomeIpv4 : Option Prefix → Type 0
SomeIpv4 none = Unit
SomeIpv4 (some p) = IsIpv4 p

sized_prefix-SomeIpv4 :
    (o : Option ℕ) (ones bits : ℕ)
    → Ip4InRange o
    → ones ≤ bits
    → SomeIpv4 (sized_prefix o ones bits)
unfolding sized_prefix prefix_from is_set bit_len
sized_prefix-SomeIpv4 none ones bits h k = tt
sized_prefix-SomeIpv4 (some n) ones bits h k = elim (Bool-cases (bits == 32)) [
  | inl e ↦
      let fits : leb (suc ones) 33 ≡ true = ground arith in
      let small : ones ≤ 32 = ground arith in rw (e, fits) (small, h)
  | inr e ↦ rw e tt
]

chosen-OneOk :
    (E : Type 0) (wanted : Bool) (rec : CountryRecord) (net : Option IpNet)
    → NetInRange (some (rec, net))
    → OneOk {E = E} (ok (if wanted then ip_net_to_prefix net else none))
unfolding ip_net_to_prefix
chosen-OneOk E false rec net h = tt
chosen-OneOk E true rec none h = tt
chosen-OneOk E true rec (some net) (h, k) =
    of_option (sized_prefix net.ip4 net.ones net.bits)
      (sized_prefix-SomeIpv4 net.ip4 net.ones net.bits h k)
  where
    of_option : (o : Option Prefix) → SomeIpv4 o → OneOk {E = E} (ok o)
    of_option none h = tt
    of_option (some p) h = h

extract_from-AllOk :
    (want : String) (networks : List Network) (failed : Bool)
    → All NetInRange networks
    → AllOk (extract_from networks failed want)
unfolding extract_from
extract_from-AllOk want [] true h = tt
extract_from-AllOk want [] false h = tt
extract_from-AllOk want (none ∷ networks) failed h = tt
extract_from-AllOk want (some (rec, net) ∷ networks) failed (h, hs) =
    push-AllOk (ok (if str_eq (to_upper (record_iso rec)) want then ip_net_to_prefix net else none))
      (extract_from networks failed want)
      (chosen-OneOk CountryError (str_eq (to_upper (record_iso rec)) want) rec net h)
      (extract_from-AllOk want networks failed hs)

from_mmdb-AllOk :
    (o : Option (List Network × Bool)) (path iso : String)
    → MmdbInRange o
    → AllOk (from_mmdb o path iso)
unfolding from_mmdb extract_country
from_mmdb-AllOk none path iso h = tt
from_mmdb-AllOk (some (networks, failed)) path iso h =
    extract_from-AllOk (to_upper iso) networks failed h

-- A step that fails gives no list.
pub bind-AllOk :
    {E A : Type 0} (x : Result E A) (f : A → Result E (List Prefix))
    → ((a : A) → AllOk (f a))
    → AllOk (x >>= f)
bind-AllOk (err e) f h = tt
bind-AllOk (ok a) f h = h a

pub parse_max_mind_country_dir-AllOk :
    (parse6 : String → Option ℕ) (dir : Dir) (iso : String)
    → AllOk (parse_max_mind_country_dir parse6 dir iso)
unfolding parse_max_mind_country_dir
parse_max_mind_country_dir-AllOk parse6 dir iso = of_files _ _
  where
    of_files :
        (locations blocks : Option String) → AllOk (from_files parse6 dir locations blocks iso)
    of_files none blocks = tt
    of_files (some l) none = tt
    of_files (some l) (some b) = bind-AllOk (opened (dir.open_csv l) l) _ (λ location_rows.
        bind-AllOk (load_country_geonames location_rows iso) _ (λ ids.
          bind-AllOk (opened (dir.open_csv b) b) _
            (λ block_rows. load_blocks_for_geonames-AllOk parse6 block_rows ids)))

module _ (parse6 : String → Option ℕ) (sources : Sources) (license iso path : String) where
  pub load_country_prefixes_raw-AllOk :
      MmdbInRange (sources.open_mmdb path)
      → AllOk (load_country_prefixes_raw parse6 sources license iso path)
  unfolding load_country_prefixes_raw download_country
  load_country_prefixes_raw-AllOk h = elim (Bool-cases (str_eq path "")) [
    | inr e ↦ rw e (from_mmdb-AllOk (sources.open_mmdb path) path iso h)
    | inl e ↦ elim (Bool-cases (str_eq license "")) [
      | inl l ↦ rw (e, l) tt
      | inr l ↦
          rw (e, l)
            (bind-AllOk (sources.download license) _
              (λ dir. parse_max_mind_country_dir-AllOk parse6 dir iso))
    ]
  ]

  -- If the MMDB file at the path has its networks in range, `LoadCountryPrefixes` never panics: it
  -- fails exactly where reading the networks fails, with the same error, and else returns a list
  -- that covers the IPv4 addresses of the networks read, no others.
  pub load_country_prefixes-covers :
      MmdbInRange (sources.open_mmdb path)
      → ((e : CountryError)
          → load_country_prefixes_raw parse6 sources license iso path ≡ err e
          → load_country_prefixes parse6 sources license iso path ≡ err e)
        × ((ps : List Prefix)
            → load_country_prefixes_raw parse6 sources license iso path ≡ ok ps
            → (r : List Prefix) × (load_country_prefixes parse6 sources license iso path
                ≡ ok (some r))
              × ((x : ℕ) → covers r x ≡ covers ps x))
  unfolding load_country_prefixes
  load_country_prefixes-covers h = (
    λ e k. rw k refl,
    λ ps k.
        let (r, same, cover) =
          collapse_ipv4-covers ps (subst AllOk k (load_country_prefixes_raw-AllOk h)) in
        (r, rw (k, same) refl, cover),
  )
