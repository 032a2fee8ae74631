-- ===== src/Cli/Assemble.antt =====
-- internal/cli/commands.go: how `Apply` reads its prefixes and assembles the policy.
use go_run.Prelude.{ℕ, String, Bool, Option, none, some, List, [], ◌∷◌, str_eq, if◌then◌else◌}
use go_run.Prelude.Result.{Result, ok, err, ◌>>=◌}
use go_run.Strings.{trim_space, split}
use go_run.Netip.{Addr, Prefix}
use go_run.Netip.Text.{parse_addr, parse_prefix}
use go_run.Collapse.{collapse_ipv4}
use go_run.CidrList.{CidrError, parse_cidr_list}
use go_run.Country.{parse_max_mind_country_dir}
use go_run.Country.Csv.{CountryError}
use go_run.Policy.{
  Policy, WireGuardConfig, fail_closed, default_mark, default_table_id, default_rule_priority,
  default_tunnel_iface,
}
use go_run.Apply.{ApplyError}
use go_run.Cli.System.{Machine}
use go_run.Cli.WgQuick.{empty_config, load_wg_quick}

pub data CliError : Type 0 where
  usage : CliError
  unknown_command : String → CliError
  bad_flags : CliError
  prefixes_required : CliError
  endpoint_required : CliError
  bad_endpoint : String → CliError
  no_file : String → CliError
  bad_list : CidrError → CliError
  bad_country : CountryError → CliError
  bad_lan : String → CliError
  bad_format : String → CliError
  write_failed : String → CliError
  apply_failed : ApplyError → CliError
  -- A panic of `CollapseIPv4`
  panicked : CliError

-- An error of a callee that is passed on
unfoldable pub passed_on : {E A : Type 0} → (E → CliError) → Result E A → Result CliError A
passed_on f (err e) = err (f e)
passed_on f (ok a) = ok a

unfoldable pub found : {A : Type 0} → CliError → Option A → Result CliError A
found e none = err e
found e (some a) = ok a

-- The prefixes that are added to a list, the one in front first
pub add_lan : {E : Type 0} → Option Prefix → E → Result E (List Prefix) → Result E (List Prefix)
add_lan none e rest = err e
add_lan (some p) e rest = do ps ← rest; ok (p ∷ ps)

module _ (parse6 : String → Option ℕ) where
  -- The loop over the parts of the list of LANs
  unfoldable pub parse_lans_from : List String → Result CliError (List Prefix)
  unfolding add_lan trim_space parse_prefix
  parse_lans_from [] = ok []
  parse_lans_from (part ∷ parts) =
      let text = trim_space part in
      let rest = parse_lans_from parts in
      if str_eq text "" then rest else add_lan (parse_prefix parse6 text) (bad_lan text) rest

  unfoldable pub parse_lans : String → Result CliError (List Prefix)
  unfolding parse_lans_from split
  parse_lans list = if str_eq list "" then ok [] else parse_lans_from (split "," list)

  module _ {W : Type 0} (m : Machine W) (w : W) where
    -- `ParseCIDRFile`
    unfoldable pub parse_cidr_file : String → Result CliError (List Prefix)
    unfolding found passed_on parse_cidr_list
    parse_cidr_file path = do
      text ← found (no_file path) (m.read_file w path)
      passed_on bad_list (parse_cidr_list parse6 text)

    -- The prefixes at a path, with what `Stat` says of it
    unfoldable pub read_prefixes : String → Result CliError (List Prefix)
    unfolding found passed_on parse_cidr_file parse_max_mind_country_dir
    read_prefixes path = do
      is_dir ← found (no_file path) (m.stat w path)
      if is_dir
          then passed_on bad_country (parse_max_mind_country_dir parse6 (m.dir w path) "RU")
          else parse_cidr_file path

    -- A config of wg-quick, where a path is given
    unfoldable pub read_wg_quick : String → Result CliError WireGuardConfig
    unfolding found load_wg_quick
    read_wg_quick path =
        if str_eq path ""
        then ok empty_config
        else do text ← found (no_file path) (m.read_file w path); ok (load_wg_quick parse6 text)

-- The arguments of `Apply`
pub record ApplyArgs : Type 0 where
  pub prefixes_path : String
  pub endpoint : String
  pub wg_config : String
  pub wg_clients_config : String
  pub lan_csv : String
  pub tunnel_up : Bool

abbrev pub assembled :
    List Prefix → Addr → List Prefix → Bool → WireGuardConfig → WireGuardConfig → Policy
assembled prefs ep lans tunnel_up exit clients = record {
  direct_prefixes = prefs;
  tunnel_interface = default_tunnel_iface;
  tunnel_endpoint = ep;
  lans = lans;
  mark = default_mark;
  table = default_table_id;
  rule_priority = default_rule_priority;
  fail_mode = fail_closed;
  tunnel_up = tunnel_up;
  wire_guard = exit;
  inbound_wire_guard = clients;
}

-- `Apply` up to the reconciliation
unfoldable pub policy_for :
    (String → Option ℕ) → {W : Type 0} → Machine W → ApplyArgs → W → Result CliError Policy
unfolding found read_prefixes parse_lans read_wg_quick parse_addr collapse_ipv4
policy_for parse6 m a w =
    if str_eq a.prefixes_path ""
    then err prefixes_required
    else if str_eq a.endpoint ""
    then err endpoint_required
    else do
      ep ← found (bad_endpoint a.endpoint) (parse_addr parse6 a.endpoint)
      raw ← read_prefixes parse6 m w a.prefixes_path
      prefs ← found panicked (collapse_ipv4 raw)
      lans ← parse_lans parse6 a.lan_csv
      exit ← read_wg_quick parse6 m w a.wg_config
      clients ← read_wg_quick parse6 m w a.wg_clients_config
      ok (assembled prefs ep lans a.tunnel_up exit clients)
