-- ===== src/Cli/Inputs.antt =====
-- What the assembly of a policy reads.
use go_run.Prelude.{
  ℕ, ◌≡◌, inl, inr, String, Bool, true, false, Option, none, some, List, str_eq, if◌then◌else◌,
  Bool-cases,
}
use go_run.Prelude.Result.{Result, ok, err, bind-ok}
use go_run.Netip.{Addr, Prefix}
use go_run.Netip.Text.{parse_addr}
use go_run.Collapse.{collapse_ipv4}
use go_run.CidrList.Laws.{AllOk, parse_cidr_list-AllOk}
use go_run.Country.{parse_max_mind_country_dir}
use go_run.Country.Load.{parse_max_mind_country_dir-AllOk, bind-AllOk}
use go_run.Policy.{Policy, WireGuardConfig}
use go_run.Cli.System.{Machine}
use go_run.Cli.Assemble.{
  CliError, panicked, bad_country, bad_endpoint, no_file, passed_on, found, parse_lans,
  parse_cidr_file, read_prefixes, read_wg_quick, ApplyArgs, assembled, policy_for,
}

pub passed_on-AllOk :
    {E : Type 0} (f : E → CliError) (x : Result E (List Prefix)) → AllOk x → AllOk (passed_on f x)
unfolding passed_on
passed_on-AllOk f (err e) h = tt
passed_on-AllOk f (ok ps) h = h

pub found-eq-ok : {A : Type 0} (e : CliError) (o : Option A) {a : A} → found e o ≡ ok a → o ≡ some a
unfolding found
found-eq-ok e none h = cc
found-eq-ok e (some a) h = cc

module _ (parse6 : String → Option ℕ) {W : Type 0} (m : Machine W) (w : W) where
  pub read_prefixes-AllOk : (path : String) → AllOk (read_prefixes parse6 m w path)
  unfolding read_prefixes parse_cidr_file
  read_prefixes-AllOk path = bind-AllOk (found (no_file path) (m.stat w path)) _ of_kind
    where
      of_kind :
          (is_dir : Bool)
          → AllOk (
              if is_dir
              then passed_on bad_country (parse_max_mind_country_dir parse6 (m.dir w path) "RU")
              else parse_cidr_file parse6 m w path)
      of_kind true =
          passed_on-AllOk _ _ (parse_max_mind_country_dir-AllOk parse6 (m.dir w path) "RU")
      of_kind false =
          bind-AllOk (found (no_file path) (m.read_file w path)) _
            (λ text. passed_on-AllOk _ _ (parse_cidr_list-AllOk parse6 text))

-- The policy that `Apply` assembles, with what it was assembled from
pub record IsAssembled (parse6 : String → Option ℕ) {W : Type 0} (m : Machine W) (a : ApplyArgs)
    (w : W) (p : Policy) : Type 0 where
  pub raw : List Prefix
  pub short : List Prefix
  pub endpoint : Addr
  pub lans : List Prefix
  pub exit : WireGuardConfig
  pub clients : WireGuardConfig
  pub endpoint_read : parse_addr parse6 a.endpoint ≡ some endpoint
  pub prefixes_read : read_prefixes parse6 m w a.prefixes_path ≡ ok raw
  pub collapsed : collapse_ipv4 raw ≡ some short
  pub lans_read : parse_lans parse6 a.lan_csv ≡ ok lans
  pub exit_read : read_wg_quick parse6 m w a.wg_config ≡ ok exit
  pub clients_read : read_wg_quick parse6 m w a.wg_clients_config ≡ ok clients
  pub policy_eq : p ≡ assembled short endpoint lans a.tunnel_up exit clients

module _ (parse6 : String → Option ℕ) {W : Type 0} (m : Machine W) (a : ApplyArgs) (w : W) where
  pub policy_for-IsAssembled :
      (p : Policy) → policy_for parse6 m a w ≡ ok p → IsAssembled parse6 m a w p
  unfolding policy_for
  policy_for-IsAssembled p h = elim (Bool-cases (str_eq a.prefixes_path "")) [
    | inl e ↦ cc (rw e at h)
    | inr e ↦ elim (Bool-cases (str_eq a.endpoint "")) [
      | inl l ↦ cc (rw (e, l) at h)
      | inr l ↦
          let (ep, h1, e1) =
            bind-ok _ (found (bad_endpoint a.endpoint) (parse_addr parse6 a.endpoint))
              (rw (e, l) at h) in
          let (raw, h2, e2) = bind-ok _ (read_prefixes parse6 m w a.prefixes_path) h1 in
          let (short, h3, e3) = bind-ok _ (found panicked (collapse_ipv4 raw)) h2 in
          let (lans, h4, e4) = bind-ok _ (parse_lans parse6 a.lan_csv) h3 in
          let (exit, h5, e5) = bind-ok _ (read_wg_quick parse6 m w a.wg_config) h4 in
          let (clients, h6, e6) = bind-ok _ (read_wg_quick parse6 m w a.wg_clients_config) h5 in
          record {
            raw = raw;
            short = short;
            endpoint = ep;
            lans = lans;
            exit = exit;
            clients = clients;
            endpoint_read = found-eq-ok _ _ e1;
            prefixes_read = e2;
            collapsed = found-eq-ok _ _ e3;
            lans_read = e4;
            exit_read = e5;
            clients_read = e6;
            policy_eq = cc;
          }
    ]
  ]
