-- ===== src/Policy/Semantic.antt =====
-- `SemanticEqual` of internal/policy/compile.go: states compared with their lists in order. A nil
-- slice and an empty one, which `DeepEqual` tells apart, are the same list here.
use Prim.Native.Char.{code}
use go_run.Prelude.{
  String, Bool, true, false, not, ◌&&◌, ◌||◌, map, ◌==◌, ltb, int_eq, int_less, ◌≡◌, if◌then◌else◌,
  sort_by,
}
use go_run.Netip.{Addr, Prefix}
use go_run.Netip.Text.{addr_text, prefix_text}
use go_run.Policy.{
  SysctlSpec, NftSetSpec, NftRuleSpec, NftChainSpec, IpRuleSpec, RouteSpec, WireGuardSpec,
  DesiredKernelState,
}

-- `<` of texts
unfoldable pub text_less : String → String → Bool
text_less String.[] String.[] = false
text_less String.[] (String.◌∷◌ d t) = true
text_less (String.◌∷◌ c s) String.[] = false
text_less (String.◌∷◌ c s) (String.◌∷◌ d t) =
    let rest = text_less s t in if code c == code d then rest else ltb (code c) (code d)

unfoldable pub prefix_text_less : Prefix → Prefix → Bool
unfolding text_less prefix_text
prefix_text_less p q = text_less (prefix_text p) (prefix_text q)

unfoldable pub addr_text_less : Addr → Addr → Bool
unfolding text_less addr_text
addr_text_less a b = text_less (addr_text a) (addr_text b)

unfoldable pub sysctl_less : SysctlSpec → SysctlSpec → Bool
unfolding text_less
sysctl_less a b = text_less a.key b.key

unfoldable pub ip_rule_less : IpRuleSpec → IpRuleSpec → Bool
ip_rule_less a b =
    if not (int_eq a.priority b.priority) then int_less a.priority b.priority else ltb a.mark b.mark

unfoldable pub route_less : RouteSpec → RouteSpec → Bool
unfolding text_less
route_less a b =
    if not (int_eq a.table b.table)
    then int_less a.table b.table
    else if not (int_eq a.metric b.metric)
    then int_less a.metric b.metric
    else if a.blackhole && not b.blackhole || not a.blackhole && b.blackhole
    then a.blackhole
    else text_less a.device b.device

-- `normalizeWGPeer`
unfoldable pub normalize_peer : WireGuardSpec → WireGuardSpec
unfolding sort_by prefix_text_less
normalize_peer wg =
    let peer = wg.peer in
    record wg { peer = record peer { allowed_ips = sort_by prefix_text_less peer.allowed_ips } }

unfoldable pub normalize_set : NftSetSpec → NftSetSpec
unfolding sort_by prefix_text_less text_less
normalize_set s = record s {
  flags = sort_by text_less s.flags;
  elements = sort_by prefix_text_less s.elements;
}

unfoldable pub normalize_rule : NftRuleSpec → NftRuleSpec
unfolding sort_by prefix_text_less addr_text_less
normalize_rule r = record r {
  exclude_prefixes = sort_by prefix_text_less r.exclude_prefixes;
  exclude_addrs = sort_by addr_text_less r.exclude_addrs;
}

unfoldable pub normalize_chain : NftChainSpec → NftChainSpec
unfolding sort_by normalize_rule text_less
normalize_chain c = record c {
  rules = sort_by (λ a b. text_less a.description b.description) (map normalize_rule c.rules);
}

-- `normalize`
unfoldable pub normalize_state : DesiredKernelState → DesiredKernelState
unfolding sort_by text_less sysctl_less ip_rule_less route_less normalize_peer normalize_set
    normalize_chain
normalize_state s =
    let nft = s.nft in
    record s {
      sysctls = sort_by sysctl_less s.sysctls;
      ip_rules = sort_by ip_rule_less s.ip_rules;
      routes = sort_by route_less s.routes;
      wire_guard = normalize_peer s.wire_guard;
      wire_guard_clients = normalize_peer s.wire_guard_clients;
      nft = record nft {
        sets = sort_by (λ a b. text_less a.name b.name) (map normalize_set nft.sets);
        chains = sort_by (λ a b. text_less a.name b.name) (map normalize_chain nft.chains);
      };
    }

-- `SemanticEqual`: that it holds. `DeepEqual` of such values is equality.
abbrev pub SemanticEqual : DesiredKernelState → DesiredKernelState → Type 0
SemanticEqual a b = normalize_state a ≡ normalize_state b
