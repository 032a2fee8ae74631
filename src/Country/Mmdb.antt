-- ===== src/Country/Mmdb.antt =====
-- internal/prefixes/mmdb.go: the networks of a country in an MMDB file, as its reader yields them.
use go_run.Prelude.{
  ℕ, suc, String, Bool, not, Option, none, some, List, [], ◌∷◌, str_eq, ◌==◌, if◌then◌else◌,
}
use go_run.Prelude.Result.{Result, ok, err, ◌>>=◌}
use go_run.Strings.{to_upper}
use go_run.Netip.{v4, Prefix, prefix_from}
use go_run.CidrList.{push}
use go_run.Country.Csv.{CountryError, bad_record}

-- `mmdbCountryRecord`
pub record CountryRecord : Type 0 where
  pub iso_code : String
  pub registered_iso_code : String

-- A `net.IPNet`: the number that `To4` gives, if it gives one, and what `Mask.Size` gives
pub record IpNet : Type 0 where
  pub ip4 : Option ℕ
  pub ones : ℕ
  pub bits : ℕ

-- One step of the iteration: an error, or a record with its network
abbrev pub Network : Type 0
Network = Option (CountryRecord × Option IpNet)

unfoldable pub sized_prefix : Option ℕ → ℕ → ℕ → Option Prefix
unfolding prefix_from
sized_prefix none ones bits = none
sized_prefix (some n) ones bits =
    if not (bits == 32) then none else some (prefix_from (v4 n) (suc ones))

-- `ipNetToPrefix`
unfoldable pub ip_net_to_prefix : Option IpNet → Option Prefix
unfolding sized_prefix
ip_net_to_prefix none = none
ip_net_to_prefix (some net) = sized_prefix net.ip4 net.ones net.bits

unfoldable pub record_iso : CountryRecord → String
record_iso rec = if str_eq rec.iso_code "" then rec.registered_iso_code else rec.iso_code

-- `ExtractCountryFromMMDB` once the file is open; `failed` is the error after the last network
unfoldable pub extract_from : List Network → Bool → String → Result CountryError (List Prefix)
unfolding ip_net_to_prefix record_iso to_upper
extract_from [] failed want = if failed then err bad_record else ok []
extract_from (none ∷ networks) failed want = err bad_record
extract_from (some (rec, net) ∷ networks) failed want = do
  ps ← extract_from networks failed want
  ok (push (if str_eq (to_upper (record_iso rec)) want then ip_net_to_prefix net else none) ps)

unfoldable pub extract_country : List Network → Bool → String → Result CountryError (List Prefix)
unfolding extract_from to_upper
extract_country networks failed iso = extract_from networks failed (to_upper iso)
