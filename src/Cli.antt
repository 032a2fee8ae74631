-- ===== src/Cli.antt =====
-- internal/cli: the commands of gotun. `Run` is here, with the flags of each command; the children
-- have the commands themselves.
pub mod System
pub mod WgQuick
pub mod Assemble
pub mod Commands
pub mod FlagSet
mod Inputs
mod Calm
mod Applied
mod Fetched
mod Tests
use go_run.Prelude.{ℕ, String, Option, none, some, List, [], ◌∷◌, Bool, ◌||◌, str_eq, if◌then◌else◌}
use go_run.Prelude.Result.{Result, ok, err}
use go_run.Strings.{to_lower}
use go_run.Country.{Sources}
use go_run.Amnezia.{Site}
use go_run.Apply.{Ways}
use go_run.Cli.System.{Machine}
use go_run.Cli.Assemble.{CliError, usage, unknown_command, bad_flags, ApplyArgs}
use go_run.Cli.Commands.{Command, Report, fetch_prefixes, export_amnezia, apply, clear_owned}
use go_run.Cli.FlagSet.{Flags, flag_value, parse_flags}

-- What the commands take beside the machine: the parser of IPv6 addresses, the sources of networks,
-- what `Reconcile` takes, the encoding of sites as JSON, `os.WriteFile`, and the license key in the
-- environment
pub record Surroundings (W : Type 0) : Type 0 where
  pub machine : Machine W
  pub parse6 : String → Option ℕ
  pub sources : Sources
  pub ways : Ways
  pub marshal_sites : List Site → String
  pub write_file : String → String → W → Option String × W
  pub license_key : String

abbrev pub fetch_flags : String → Flags
fetch_flags license =
    ("out", "prefixes.txt") ∷ ("country", "RU") ∷ ("license", license) ∷ ("mmdb", "") ∷ []

abbrev pub amnezia_flags : String → Flags
amnezia_flags license =
    ("out", "amnezia-sites.json")
    ∷ ("country", "RU")
    ∷ ("license", license)
    ∷ ("mmdb", "")
    ∷ ("format", "official")
    ∷ []

abbrev pub apply_flags : Flags
apply_flags =
    ("prefixes", "")
    ∷ ("endpoint", "")
    ∷ ("wg-config", "")
    ∷ ("wg-clients-config", "")
    ∷ ("tunnel-up", "true")
    ∷ ("lan", "")
    ∷ []

unfoldable pub apply_args : Flags → ApplyArgs
unfolding flag_value to_lower
apply_args f =
    let up = flag_value "tunnel-up" f in
    record {
      prefixes_path = flag_value "prefixes" f;
      endpoint = flag_value "endpoint" f;
      wg_config = flag_value "wg-config" f;
      wg_clients_config = flag_value "wg-clients-config" f;
      lan_csv = flag_value "lan" f;
      tunnel_up = str_eq (to_lower up) "true" || str_eq up "1";
    }

module _ {W : Type 0} where
  unfoldable pub with_flags : (Flags → Command W) → Option Flags → Command W
  with_flags command none w = (err bad_flags, w)
  with_flags command (some f) w = command f w

  module _ (s : Surroundings W) where
    unfoldable pub run_fetch : List String → Command W
    unfolding with_flags parse_flags flag_value fetch_prefixes
    run_fetch args =
        with_flags
          (λ f.
            fetch_prefixes s.machine s.parse6 s.sources (flag_value "license" f)
              (flag_value "country" f) (flag_value "out" f) (flag_value "mmdb" f))
          (parse_flags args (fetch_flags s.license_key))

    unfoldable pub run_amnezia : List String → Command W
    unfolding with_flags parse_flags flag_value export_amnezia
    run_amnezia args =
        with_flags
          (λ f.
            export_amnezia s.machine s.parse6 s.sources s.marshal_sites s.write_file
              (flag_value "license" f) (flag_value "country" f) (flag_value "out" f)
              (flag_value "mmdb" f) (flag_value "format" f))
          (parse_flags args (amnezia_flags s.license_key))

    unfoldable pub run_apply : List String → Command W
    unfolding with_flags parse_flags apply_args apply
    run_apply args =
        with_flags (λ f. apply s.machine s.parse6 s.ways (apply_args f))
          (parse_flags args apply_flags)

    unfoldable pub run_clear : List String → Command W
    unfolding with_flags parse_flags clear_owned
    run_clear args = with_flags (λ f. clear_owned s.machine) (parse_flags args [])

    -- `Run`
    unfoldable pub run : List String → Command W
    unfolding run_fetch run_amnezia run_apply run_clear
    run [] w = (err usage, w)
    run (name ∷ args) w =
        if str_eq name "fetch"
        then run_fetch args w
        else if str_eq name "amnezia"
        then run_amnezia args w
        else if str_eq name "apply"
        then run_apply args w
        else if str_eq name "clear"
        then run_clear args w
        else (err (unknown_command name), w)
