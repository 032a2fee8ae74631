-- ===== src/Amnezia/Tests.antt =====
-- One prefix in both formats.
use go_run.Prelude.{ℕ, ◌*◌, ◌^◌, ◌≡◌, refl, String, Option, none, some, List, [], ◌∷◌, arith}
use go_run.Netip.{v4, Prefix, prefix}
use go_run.Amnezia.{Site, ios, parse_format, encode_sites}
use go_run.Amnezia.ReadBack.{HaveShapes, encode_sites-read}

abbrev ten : List Prefix
ten = prefix (v4 (10 * 2 ^ 24)) 9 ∷ []

abbrev no_ipv6 : String → Option ℕ
no_ipv6 s = none

for_ios : encode_sites ten " iOS " ≡ some (record { hostname = "site-1"; ip = "10.0.0.0/8" } ∷ [])
unfolding encode_sites
for_ios = refl

unknown : encode_sites ten "android" ≡ none
unfolding encode_sites
unknown = refl

encode_sites-read_example :
    (sites : List Site) × (encode_sites ten "ios" ≡ some sites) × HaveShapes no_ipv6 ios 0 ten sites
unfolding parse_format
encode_sites-read_example =
    encode_sites-read no_ipv6 "ios" ios ten refl ((omega arith, omega arith), tt)
