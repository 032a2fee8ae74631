-- ===== src/Policy/Datapath.antt =====
-- What the kernel makes of a `DesiredKernelState`, as internal/policy/policy.go documents its
-- fields: the reading that the theorems about `Compile` are stated in. It models no code.
use go_run.Prelude.{
  ℕ, ℤ, pos, String, Bool, false, ◌&&◌, ◌||◌, Option, none, some, List, [], ◌∷◌, ◌==◌, str_eq,
  int_eq, int_less, ltb, if◌then◌else◌, any,
}
use go_run.Netip.{Addr, Prefix, addr_eq, contains, is6, bits_plus_one}
use go_run.Policy.{NftSetSpec, NftRuleSpec, NftChainSpec, IpRuleSpec, RouteSpec, DesiredKernelState}

-- Where a forwarded packet goes.
pub data Egress : Type 0 where
  direct : Egress
  tunnel : String → Egress
  blackholed : Egress
  dropped : Egress

unfoldable pub elements_of : String → List NftSetSpec → List Prefix
elements_of name [] = []
elements_of name (s ∷ sets) = if str_eq s.name name then s.elements else elements_of name sets

abbrev pub in_prefixes : Addr → List Prefix → Bool
in_prefixes dst ps = any (λ p. contains p dst) ps

-- `none`: the packet is dropped; `some m`: it goes on with mark `m`, 0 if it has none. An excluded
-- destination leaves the chain.
unfoldable pub run_rules : List NftSetSpec → List NftRuleSpec → ℕ → Addr → Option ℕ
unfolding elements_of
run_rules sets [] mark dst = some mark
run_rules sets (r ∷ rules) mark dst =
    let skip = run_rules sets rules mark dst in
    let set_mark = run_rules sets rules r.mark dst in
    if r.drop_ipv6
    then if is6 dst then none else skip
    else if str_eq r.description "mark-non-direct"
    then if in_prefixes dst r.exclude_prefixes || any (λ a. addr_eq a dst) r.exclude_addrs
      then some mark
      else if in_prefixes dst (elements_of r.direct_set sets)
      then skip
      else set_mark
    else skip

-- The chains of a hook, in order.
unfoldable pub run_chains : List NftSetSpec → List NftChainSpec → ℕ → Addr → Option ℕ
unfolding run_rules
run_chains sets [] mark dst = some mark
run_chains sets (c ∷ chains) mark dst =
    let skip = run_chains sets chains mark dst in
    if str_eq c.hook "prerouting"
    then elim (run_rules sets c.rules mark dst) [
      | none ↦ none
      | some m ↦ run_chains sets chains m dst
    ]
    else skip

-- A longer prefix wins over a shorter one, then a lower metric over a higher one.
abbrev pub beats : RouteSpec → RouteSpec → Bool
beats s r =
    ltb (bits_plus_one r.destination) (bits_plus_one s.destination)
    || (bits_plus_one r.destination == bits_plus_one s.destination && int_less s.metric r.metric)

-- The best of the routes of a table that contain the destination and can be used. A blackhole can
-- always be used, a device route while its device is up.
unfoldable pub best_route : (String → Bool) → ℤ → Addr → List RouteSpec → Option RouteSpec
unfolding bits_plus_one
best_route up table dst [] = none
best_route up table dst (r ∷ routes) =
    let rest = best_route up table dst routes in
    if int_eq r.table table && contains r.destination dst && (r.blackhole || up r.device)
    then elim rest [ none ↦ some r | some s ↦ if beats s r then some s else some r ]
    else rest

abbrev pub egress_by : RouteSpec → Egress
egress_by r = if r.blackhole then blackholed else tunnel r.device

-- The priority of the rule that looks up the main table
abbrev pub main_priority : ℤ
main_priority = pos 32766

-- The rules stand in the order of their priorities. One that comes after the rule of the main table
-- is never reached, as the main table has a route to every destination. A packet that no owned rule
-- routes before falls through to the main table.
unfoldable pub route_marked : (String → Bool) → List IpRuleSpec → List RouteSpec → ℕ → Addr → Egress
unfolding best_route
route_marked up [] routes mark dst = direct
route_marked up (rule ∷ rules) routes mark dst =
    let rest = route_marked up rules routes mark dst in
    if int_less rule.priority main_priority && rule.mark == mark
    then elim (best_route up rule.table dst routes) [ none ↦ rest | some r ↦ egress_by r ]
    else rest

-- The way of a packet to `dst` that comes in without a mark, given which devices are up.
unfoldable pub egress : (String → Bool) → DesiredKernelState → Addr → Egress
unfolding run_chains route_marked
egress up st dst = elim (run_chains st.nft.sets st.nft.chains 0 dst) [
  | none ↦ dropped
  | some mark ↦ route_marked up st.ip_rules st.routes mark dst
]

unfoldable pub drops_forward : List NftSetSpec → List NftRuleSpec → String → Addr → Bool
unfolding elements_of
drops_forward sets [] iif dst = false
drops_forward sets (r ∷ rules) iif dst =
    (str_eq r.description "isolate-inbound-from-home"
      && str_eq r.iif_name iif
      && in_prefixes dst (elements_of r.drop_dst_set sets))
    || drops_forward sets rules iif dst

unfoldable pub forward_chains : List NftSetSpec → List NftChainSpec → String → Addr → Bool
unfolding drops_forward
forward_chains sets [] iif dst = false
forward_chains sets (c ∷ chains) iif dst =
    (str_eq c.hook "forward" && drops_forward sets c.rules iif dst)
    || forward_chains sets chains iif dst

-- Whether a packet that came in on `iif` is dropped on its way to `dst`.
unfoldable pub drops : DesiredKernelState → String → Addr → Bool
unfolding forward_chains
drops st iif dst = forward_chains st.nft.sets st.nft.chains iif dst
