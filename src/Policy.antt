-- ===== src/Policy.antt =====
-- internal/policy/policy.go: the policy of the gateway and the kernel state that it asks for.
-- A nil slice and an empty one are both the empty list; a zero `netip.Prefix` is an invalid one.
pub mod Compile
pub mod Datapath
pub mod Gateway
pub mod Collapsed
pub mod Semantic
pub mod Decide
pub mod Reordered
mod OrderTests
pub mod Tests
use go_run.Prelude.{ℕ, ℤ, pos, String, Bool, List}
use go_run.Netip.{Addr, Prefix}

pub data FailMode : Type 0 where
  fail_closed : FailMode

abbrev pub owned_nft_table : String
owned_nft_table = "gotun"

abbrev pub owned_nft_family : String
owned_nft_family = "inet"

abbrev pub default_mark : ℕ
default_mark = 1

abbrev pub default_table_id : ℤ
default_table_id = pos 100

abbrev pub default_rule_priority : ℤ
default_rule_priority = pos 100

abbrev pub default_tunnel_iface : String
default_tunnel_iface = "wg-exit"

abbrev pub default_clients_iface : String
default_clients_iface = "wg-clients"

abbrev pub ru_nets_set_name : String
ru_nets_set_name = "ru_nets"

abbrev pub home_nets_set_name : String
home_nets_set_name = "home_nets"

abbrev pub tunnel_route_metric : ℤ
tunnel_route_metric = pos 10

abbrev pub fail_closed_route_metric : ℤ
fail_closed_route_metric = pos 100

pub record WireGuardPeer : Type 0 where
  pub public_key : String
  pub endpoint : String
  pub allowed_ips : List Prefix
  pub persistent_keepalive : ℤ

pub record WireGuardConfig : Type 0 where
  pub private_key : String
  pub listen_port : ℤ
  pub address : Prefix
  pub peer : WireGuardPeer

pub record Policy : Type 0 where
  pub direct_prefixes : List Prefix
  pub tunnel_interface : String
  pub tunnel_endpoint : Addr
  pub lans : List Prefix
  pub mark : ℕ
  pub table : ℤ
  pub rule_priority : ℤ
  pub fail_mode : FailMode
  pub tunnel_up : Bool
  pub wire_guard : WireGuardConfig
  pub inbound_wire_guard : WireGuardConfig

pub record SysctlSpec : Type 0 where
  pub key : String
  pub value : String

pub record NftSetSpec : Type 0 where
  pub name : String
  pub type : String
  pub flags : List String
  pub elements : List Prefix

pub record NftRuleSpec : Type 0 where
  pub description : String
  pub exclude_prefixes : List Prefix
  pub exclude_addrs : List Addr
  pub direct_set : String
  pub mark : ℕ
  pub drop_ipv6 : Bool
  pub iif_name : String
  pub drop_dst_set : String

pub record NftChainSpec : Type 0 where
  pub name : String
  pub type : String
  pub hook : String
  pub priority : ℤ
  pub policy : String
  pub rules : List NftRuleSpec

pub record NftSpec : Type 0 where
  pub family : String
  pub table : String
  pub sets : List NftSetSpec
  pub chains : List NftChainSpec

pub record IpRuleSpec : Type 0 where
  pub priority : ℤ
  pub mark : ℕ
  pub table : ℤ

pub record RouteSpec : Type 0 where
  pub table : ℤ
  pub destination : Prefix
  pub blackhole : Bool
  pub device : String
  pub metric : ℤ

pub record WireGuardSpec : Type 0 where
  pub interface : String
  pub private_key : String
  pub listen_port : ℤ
  pub address : Prefix
  pub peer : WireGuardPeer
  pub managed : Bool
  pub up : Bool

pub record DesiredKernelState : Type 0 where
  pub sysctls : List SysctlSpec
  pub nft : NftSpec
  pub ip_rules : List IpRuleSpec
  pub routes : List RouteSpec
  pub wire_guard : WireGuardSpec
  pub wire_guard_clients : WireGuardSpec
