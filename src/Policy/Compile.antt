-- ===== src/Policy/Compile.antt =====
-- `Compile` of internal/policy/compile.go.
use go_run.Prelude.{
  ℕ, ℤ, pos, negsuc, String, Bool, true, false, not, ◌&&◌, ◌||◌, List, [], ◌∷◌, ◌==◌, str_eq,
  int_eq, if◌then◌else◌,
}
use go_run.Prelude.Result.{Result, ok, err, ◌>>◌}
use go_run.Netip.{Addr, v4, Prefix, prefix, addr, is_valid, is_set, is6}
use go_run.Policy.{
  FailMode, Policy, NftSetSpec, NftRuleSpec, NftChainSpec, RouteSpec, WireGuardConfig,
  WireGuardSpec, DesiredKernelState, owned_nft_table, owned_nft_family, default_mark,
  default_table_id, default_rule_priority, default_tunnel_iface, default_clients_iface,
  ru_nets_set_name, home_nets_set_name, tunnel_route_metric, fail_closed_route_metric,
}

pub data PolicyError : Type 0 where
  endpoint_required : PolicyError
  bad_direct_prefix : Prefix → PolicyError
  lans_required : PolicyError

-- The loop over `DirectPrefixes`
unfoldable pub check_direct : List Prefix → Result PolicyError (Unit {0})
check_direct [] = ok tt
check_direct (p ∷ ps) =
    if not (is_valid p) || is6 (addr p) then err (bad_direct_prefix p) else check_direct ps

unfoldable pub is_empty {ℓ} : {A : Type ℓ} → List A → Bool
is_empty [] = true
is_empty (x ∷ xs) = false

unfoldable pub validate : Policy → Result PolicyError (Unit {0})
unfolding check_direct is_empty
validate p = if not (is_set p.tunnel_endpoint) then err endpoint_required else do
  check_direct p.direct_prefixes
  if not (str_eq p.inbound_wire_guard.private_key "") && is_empty p.lans
      then err lans_required
      else ok tt

abbrev pub default_route : Prefix
default_route = prefix (v4 0) 1

abbrev pub no_prefix : Prefix
no_prefix = prefix Addr.unset 0

unfoldable pub routes_for_tunnel : ℤ → String → Bool → FailMode → List RouteSpec
routes_for_tunnel table iface tunnel_up mode =
    let bh : RouteSpec = record {
      table = table;
      destination = default_route;
      blackhole = true;
      device = "";
      metric = fail_closed_route_metric;
    } in
    if not tunnel_up
    then bh ∷ []
    else record {
      table = table;
      destination = default_route;
      blackhole = false;
      device = iface;
      metric = tunnel_route_metric;
    }
      ∷ bh
      ∷ []

abbrev or_default_ℕ : ℕ → ℕ → ℕ
or_default_ℕ n d = if n == 0 then d else n

abbrev or_default_int : ℤ → ℤ → ℤ
or_default_int n d = if int_eq n (pos 0) then d else n

abbrev or_default_text : String → String → String
or_default_text s d = if str_eq s "" then d else s

unfoldable pub inbound_managed : Policy → Bool
inbound_managed p = not (str_eq p.inbound_wire_guard.private_key "")

unfoldable pub policy_mark : Policy → ℕ
policy_mark p = or_default_ℕ p.mark default_mark

unfoldable pub policy_table : Policy → ℤ
policy_table p = or_default_int p.table default_table_id

unfoldable pub policy_priority : Policy → ℤ
policy_priority p = or_default_int p.rule_priority default_rule_priority

unfoldable pub policy_iface : Policy → String
policy_iface p = or_default_text p.tunnel_interface default_tunnel_iface

-- A rule with every field zero, which the literals of the source start from
abbrev zero_rule : NftRuleSpec
zero_rule = record {
  description = "";
  exclude_prefixes = [];
  exclude_addrs = [];
  direct_set = "";
  mark = 0;
  drop_ipv6 = false;
  iif_name = "";
  drop_dst_set = "";
}

abbrev interval_set : String → List Prefix → NftSetSpec
interval_set name elements = record {
  name = name;
  type = "ipv4_addr";
  flags = "interval" ∷ [];
  elements = elements;
}

abbrev pub drop_ipv6_rule : NftRuleSpec
drop_ipv6_rule = record zero_rule { description = "drop-ipv6"; drop_ipv6 = true }

unfoldable pub mark_rule : Policy → NftRuleSpec
unfolding policy_mark
mark_rule p = record zero_rule {
  description = "mark-non-direct";
  exclude_prefixes = p.lans;
  exclude_addrs = if is_set p.tunnel_endpoint then p.tunnel_endpoint ∷ [] else [];
  direct_set = ru_nets_set_name;
  mark = policy_mark p;
}

unfoldable pub prerouting_chain : Policy → NftChainSpec
unfolding mark_rule
prerouting_chain p = record {
  name = "prerouting";
  type = "filter";
  hook = "prerouting";
  priority = negsuc 149;
  policy = "accept";
  rules = drop_ipv6_rule ∷ mark_rule p ∷ [];
}

abbrev pub isolate_rule : NftRuleSpec
isolate_rule = record zero_rule {
  description = "isolate-inbound-from-home";
  iif_name = default_clients_iface;
  drop_dst_set = home_nets_set_name;
}

abbrev pub forward_chain : NftChainSpec
forward_chain = record {
  name = "forward";
  type = "filter";
  hook = "forward";
  priority = pos 0;
  policy = "accept";
  rules = isolate_rule ∷ [];
}

abbrev wire_guard_spec : String → WireGuardConfig → Bool → Bool → WireGuardSpec
wire_guard_spec iface cfg managed up = record {
  interface = iface;
  private_key = cfg.private_key;
  listen_port = cfg.listen_port;
  address = cfg.address;
  peer = cfg.peer;
  managed = managed;
  up = up;
}

-- What `Compile` builds once the policy is valid
unfoldable pub desired_state : Policy → DesiredKernelState
unfolding inbound_managed policy_mark policy_table policy_priority policy_iface prerouting_chain
    routes_for_tunnel
desired_state p = record {
  sysctls =
      record { key = "net.ipv4.ip_forward"; value = "1" }
      ∷ record { key = "net.ipv6.conf.all.disable_ipv6"; value = "1" }
      ∷ record { key = "net.ipv6.conf.default.disable_ipv6"; value = "1" }
      ∷ [];
  nft = record {
    family = owned_nft_family;
    table = owned_nft_table;
    sets =
        interval_set ru_nets_set_name p.direct_prefixes
        ∷ (if inbound_managed p then interval_set home_nets_set_name p.lans ∷ [] else []);
    chains = prerouting_chain p ∷ (if inbound_managed p then forward_chain ∷ [] else []);
  };
  ip_rules =
      record { priority = policy_priority p; mark = policy_mark p; table = policy_table p } ∷ [];
  routes = routes_for_tunnel (policy_table p) (policy_iface p) p.tunnel_up p.fail_mode;
  wire_guard =
      wire_guard_spec (policy_iface p) p.wire_guard (not (str_eq p.wire_guard.private_key ""))
        p.tunnel_up;
  wire_guard_clients =
      wire_guard_spec default_clients_iface p.inbound_wire_guard (inbound_managed p)
        (inbound_managed p);
}

unfoldable pub compile : Policy → Result PolicyError DesiredKernelState
unfolding validate desired_state
compile p = do validate p; ok (desired_state p)
