-- ===== src/Policy/Tests.antt =====
-- Compiled policies, and the theorems about them at concrete packets.
use go_run.Prelude.{
  some, List, arith, sort_by, ◌+◌, ◌*◌, ◌^◌, ◌≡◌, ◌↔◌, refl, String, Bool, true, false, ◌&&◌, ◌||◌,
  not, [], ◌∷◌, pos, str_eq, any, if◌then◌else◌,
}
use go_run.Prelude.Result.{ok}
use go_run.Netip.{
  masked, prefix_eq, prefix_from, bits, bits_plus_one, is4, addr_less, Prefix, prefix, v4, v6, addr,
  addr_eq, contains, is_set, is_valid, is6,
}
use go_run.Policy.{Policy, WireGuardPeer, WireGuardConfig, fail_closed, default_clients_iface}
use go_run.Policy.Compile.{compile, desired_state, inbound_managed, policy_iface, no_prefix}
use go_run.Policy.Datapath.{direct, tunnel, blackholed, dropped, egress, drops}
use go_run.Policy.Gateway.{
  before_main, goes_direct, IsDeployable, egress-compile, egress-compile_ipv6, drops-compile,
  compile_iff,
}
use go_run.Collapse.{collapse_ipv4}
use go_run.Policy.Collapsed.{egress-collapse_ipv4}

abbrev no_peer : WireGuardPeer
no_peer = record { public_key = ""; endpoint = ""; allowed_ips = []; persistent_keepalive = pos 0 }

abbrev no_wire_guard : WireGuardConfig
no_wire_guard = record {
  private_key = "";
  listen_port = pos 0;
  address = no_prefix;
  peer = no_peer;
}

-- RU 10.200.0.0/24, LAN 10.10.0.0/24, endpoint 10.20.0.2, clients managed
abbrev pub sample : Policy
sample = record {
  direct_prefixes = prefix (v4 (10 * 2 ^ 24 + 200 * 2 ^ 16)) 25 ∷ [];
  tunnel_interface = "";
  tunnel_endpoint = v4 (10 * 2 ^ 24 + 20 * 2 ^ 16 + 2);
  lans = prefix (v4 (10 * 2 ^ 24 + 10 * 2 ^ 16)) 25 ∷ [];
  mark = 0;
  table = pos 0;
  rule_priority = pos 0;
  fail_mode = fail_closed;
  tunnel_up = true;
  wire_guard = no_wire_guard;
  inbound_wire_guard = record no_wire_guard { private_key = "k" };
}

pub compile-sample : compile sample ≡ ok (desired_state sample)
unfolding compile addr is_set is_valid is6
compile-sample = refl

all_up : String → Bool
all_up name = true

-- 8.8.8.8 goes into the tunnel, and is blackholed when the device is down.
foreign_tunnel : egress all_up (desired_state sample) (v4 (8 * 2 ^ 24 + 8)) ≡ tunnel "wg-exit"
unfolding all_up egress desired_state contains addr_eq is6 is_set
foreign_tunnel = refl

foreign_down : egress (λ name. false) (desired_state sample) (v4 (8 * 2 ^ 24 + 8)) ≡ blackholed
unfolding egress desired_state contains addr_eq is6 is_set
foreign_down = refl

egress-compile_example : egress all_up (desired_state sample) (v4 (8 * 2 ^ 24 + 8)) ≡ (
    if not (before_main sample) || goes_direct sample (v4 (8 * 2 ^ 24 + 8))
    then direct
    else if true && all_up (policy_iface sample)
    then tunnel (policy_iface sample)
    else blackholed)
egress-compile_example =
    egress-compile sample (desired_state sample) all_up (8 * 2 ^ 24 + 8) compile-sample
      (omega arith)

six_dropped : egress all_up (desired_state sample) (v6 1) ≡ dropped
six_dropped = egress-compile_ipv6 sample (desired_state sample) all_up 1 compile-sample

drops-compile_example :
    drops (desired_state sample) "wg-clients" (v4 (10 * 2 ^ 24 + 10 * 2 ^ 16 + 5)) ≡ (
      inbound_managed sample
      && str_eq default_clients_iface "wg-clients"
      && any (λ l. contains l (v4 (10 * 2 ^ 24 + 10 * 2 ^ 16 + 5))) sample.lans)
drops-compile_example =
    drops-compile sample (desired_state sample) "wg-clients" (10 * 2 ^ 24 + 10 * 2 ^ 16 + 5)
      compile-sample

compile_iff_example : (compile sample ≡ ok (desired_state sample)) ↔ IsDeployable sample
compile_iff_example = compile_iff sample

-- Both halves of the direct network of `sample`
abbrev halves : List Prefix
halves =
    prefix (v4 (10 * 2 ^ 24 + 200 * 2 ^ 16)) 26
    ∷ prefix (v4 (10 * 2 ^ 24 + 200 * 2 ^ 16 + 128)) 26
    ∷ []

collapse-halves : collapse_ipv4 halves ≡ some sample.direct_prefixes
unfolding collapse_ipv4 addr addr_eq addr_less bits bits_plus_one is4 masked prefix_eq prefix_from
    sort_by
collapse-halves = refl

abbrev split_sample : Policy
split_sample = record sample { direct_prefixes = halves }

compile-split_sample : compile split_sample ≡ ok (desired_state split_sample)
unfolding compile addr is_set is_valid is6
compile-split_sample = refl

sample_collapsed :
    egress all_up (desired_state sample) (v4 (10 * 2 ^ 24 + 200 * 2 ^ 16 + 200))
    ≡ egress all_up (desired_state split_sample) (v4 (10 * 2 ^ 24 + 200 * 2 ^ 16 + 200))
sample_collapsed =
    egress-collapse_ipv4 split_sample sample.direct_prefixes (desired_state split_sample)
      (desired_state sample) all_up (10 * 2 ^ 24 + 200 * 2 ^ 16 + 200) (omega arith) collapse-halves
      compile-split_sample compile-sample (omega arith)
