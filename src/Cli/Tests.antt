-- ===== src/Cli/Tests.antt =====
-- Command lines, a fetch onto a disk, and an application on a host where each command works.
use mathlib.Core.Path.{subst}
use go_run.Prelude.{
  ℕ, suc, ◌+◌, ◌*◌, ◌^◌, ◌≡◌, refl, String, true, false, Option, none, some, List, [], ◌∷◌, str_eq,
  eq_iff, inl, inr, ap, arith, length, sort_by, pos, negsuc, Bool-cases, if◌then◌else◌,
}
use go_run.Prelude.Result.{ok, err}
use go_run.Strings.{◌<>◌, has_prefix, trim_prefix_char, cut}
use go_run.Linux.{Runner}
use go_run.Apply.{Ways}
use go_run.Country.{Sources}
use go_run.Country.Csv.{no_license}
use go_run.Cli.System.{Machine, WritesFiles}
use go_run.Netip.{
  addr, addr_eq, addr_less, prefix_eq, bits_plus_one, bits, is6, is4, masked, v4, Prefix, prefix,
}
use go_run.Collapse.Coverage.{covers}
use go_run.Country.{load_country_prefixes_raw}
use go_run.Country.Mmdb.{Network}
use go_run.Cli.WgQuick.{load_wg_quick}
use go_run.Cli.Applied.{IsReported, Outcome, apply-IsReported, apply-Outcome}
use go_run.Cli.Fetched.{fetch_prefixes-read}
use go_run.Cli.FlagSet.{parse_flags}
use go_run.Cli.Assemble.{ApplyArgs, parse_cidr_file}
use go_run.Cli.Commands.{apply, applied, fetched, fetch_prefixes}

two_ways :
    parse_flags ("--a=1" ∷ "-b" ∷ "-c" ∷ "rest" ∷ "-z" ∷ []) (("a", "") ∷ ("b", "") ∷ [])
    ≡ some (("a", "1") ∷ ("b", "-c") ∷ [])
unfolding parse_flags has_prefix trim_prefix_char cut
two_ways = refl

three_dashes : parse_flags ("---a=1" ∷ []) (("a", "") ∷ []) ≡ none
unfolding parse_flags has_prefix trim_prefix_char cut
three_dashes = refl

-- The files, as their names and texts
abbrev Disk : Type 0
Disk = List (String × String)

on_disk : Disk → String → Option String
on_disk [] path = none
on_disk ((name, text) ∷ disk) path =
    let rest = on_disk disk path in if str_eq name path then some text else rest

-- The state of the host beside the disk is the number of commands that were run.
abbrev working : Runner (Disk × ℕ)
working = record {
  run_with_input = λ k name script args. (record { output = "1"; error = none }, (k.0, suc k.1));
}

add_text : String → String → Disk → Disk
add_text path text [] = []
add_text path text ((name, old) ∷ disk) =
    let rest = add_text path text disk in
    if str_eq name path then (name, old <> text) ∷ disk else (name, old) ∷ rest

abbrev machine : Machine (Disk × ℕ)
machine = record {
  stat = λ w path. some false;
  dir = λ w path. record { entries = none; open_csv = λ name. none };
  read_file = λ w path. on_disk w.0 path;
  create = λ path w. (none, ((path, "") ∷ w.0, w.1));
  append = λ path text w. (none, (add_text path text w.0, w.1));
  runner = working;
}

abbrev no_ipv6 : String → Option ℕ
no_ipv6 s = none

abbrev ways : Ways
ways = record { parse_json = λ s. none; order = λ tables. tables }

abbrev args : ApplyArgs
args = record {
  prefixes_path = "ru.txt";
  endpoint = "10.20.0.2";
  wg_config = "";
  wg_clients_config = "";
  lan_csv = "10.10.0.0/24";
  tunnel_up = true;
}

abbrev disk : Disk
disk = ("ru.txt", "10.200.0.0/24\n") ∷ []

worked : apply machine no_ipv6 ways args (disk, 0) ≡ (ok (applied 3), (disk, 12))
unfolding apply on_disk is6 is4 sort_by masked
worked = refl

apply-IsReported_example : IsReported no_ipv6 (Disk × ℕ) machine ways args (disk, 0) 3 (disk, 12)
apply-IsReported_example =
    apply-IsReported no_ipv6 (Disk × ℕ) machine ways args (disk, 0) 3 (disk, 12) worked

apply-Outcome_example :
    Outcome no_ipv6 machine ways args (disk, 0) (apply machine no_ipv6 ways args (disk, 0))
apply-Outcome_example = apply-Outcome no_ipv6 (Disk × ℕ) machine ways args (disk, 0)

on_disk-add_text :
    (path text old : String) (d : Disk)
    → on_disk d path ≡ some old
    → on_disk (add_text path text d) path ≡ some (old <> text)
unfolding on_disk add_text
on_disk-add_text path text old [] h = cc
on_disk-add_text path text old ((name, s) ∷ d) h = elim (Bool-cases (str_eq name path)) [
  | inl e ↦ ground (arith, rw e at h)
  | inr e ↦ ground (arith, on_disk-add_text path text old d (rw e at h))
]

machine-WritesFiles : WritesFiles machine
unfolding on_disk
machine-WritesFiles = record {
  created = λ path w w' e.
      subst (λ v. on_disk v.0 path ≡ some "") (ap (λ y. y.1) e)
        (rw ((eq_iff path path).1 refl) refl);
  appended = λ path text old w w' e h.
      subst (λ v. on_disk v.0 path ≡ some (old <> text)) (ap (λ y. y.1) e)
        (on_disk-add_text path text old w.0 h);
}

-- The halves of 11.0.0.0/8, in one record each
abbrev half : ℕ → Network
half n = some (
  record { iso_code = "RU"; registered_iso_code = "" },
  some (record { ip4 = some n; ones = 9; bits = 32 }),
)

abbrev halves : Sources
halves = record {
  open_mmdb = λ path. some (half (11 * 2 ^ 24) ∷ half (11 * 2 ^ 24 + 2 ^ 23) ∷ [], false);
  download = λ license. err no_license;
}

abbrev fetched_disk : Disk
fetched_disk = ("out.txt", "11.0.0.0/8\n") ∷ []

halves_fetched :
    fetch_prefixes machine no_ipv6 halves "" "ru" "out.txt" "db" ([], 0)
    ≡ (ok (fetched 2 1 "out.txt"), (fetched_disk, 0))
unfolding fetch_prefixes is4 addr sort_by addr_eq masked addr_less prefix_eq bits_plus_one bits
    add_text
halves_fetched = refl

fetch_prefixes-read_example :
    (raw : List Prefix) × (short : List Prefix) × (load_country_prefixes_raw no_ipv6 halves "" "ru"
        "db"
      ≡ ok raw)
    × (parse_cidr_file no_ipv6 machine (fetched_disk, 0) "out.txt" ≡ ok short)
    × (fetched 2 1 "out.txt" ≡ fetched (length raw) (length short) "out.txt")
    × ((x : ℕ) → covers short x ≡ covers raw x)
fetch_prefixes-read_example =
    fetch_prefixes-read no_ipv6 (Disk × ℕ) machine halves "" "ru" "out.txt" "db" ([], 0)
      (fetched_disk, 0) (fetched 2 1 "out.txt") machine-WritesFiles
      ((omega arith, omega arith), ((omega arith, omega arith), tt)) halves_fetched

-- A config with a comment, an address alone, and a key before its section
abbrev wg_text : String
wg_text =
    "PrivateKey = early\n[Interface]\n# exit\nPrivateKey = k=\nAddress = 10.0.0.2, 10.0.0.3/24\nListenPort = 51820x\n[PEER]\nAllowedIPs = 0.0.0.0/0, bad , 10.0.0.0/8\nPersistentKeepalive = -3"

wg_read : load_wg_quick no_ipv6 wg_text ≡ record {
  private_key = "k=";
  listen_port = pos 51820;
  address = prefix (v4 (10 * 2 ^ 24 + 2)) 33;
  peer = record {
    public_key = "";
    endpoint = "";
    allowed_ips = prefix (v4 0) 1 ∷ prefix (v4 (10 * 2 ^ 24)) 9 ∷ [];
    persistent_keepalive = negsuc 2;
  };
}
unfolding load_wg_quick
wg_read = refl
