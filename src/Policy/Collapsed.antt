-- ===== src/Policy/Collapsed.antt =====
-- A gateway whose direct prefixes were collapsed.
use go_run.Prelude.{
  ℕ, ◌^◌, ◌<◌, ◌≡◌, sym, ap, ◌∙◌, String, Bool, not, ◌&&◌, ◌||◌, some, List, any, All,
  if◌then◌else◌,
}
use go_run.Prelude.Result.{ok}
use go_run.Netip.{Prefix, v4, contains, addr_eq}
use go_run.Collapse.{collapse_ipv4}
use go_run.Collapse.Coverage.{IsIpv4, covers, collapse_ipv4-covers}
use go_run.Policy.{Policy, DesiredKernelState}
use go_run.Policy.Compile.{compile, policy_iface}
use go_run.Policy.Datapath.{direct, tunnel, blackholed, egress}
use go_run.Policy.Gateway.{before_main, egress-compile}

-- Collapsing the direct prefixes of a policy changes the way of no IPv4 packet: if the policy
-- compiles, its direct prefixes are valid IPv4 prefixes, and the policy with the collapsed list
-- compiles too, both states send every packet the same way, whichever devices are up.
pub egress-collapse_ipv4 :
    (p : Policy) (r : List Prefix) (st collapsed : DesiredKernelState) (up : String → Bool) (x : ℕ)
    → All IsIpv4 p.direct_prefixes
    → collapse_ipv4 p.direct_prefixes ≡ some r
    → compile p ≡ ok st
    → compile (record p { direct_prefixes = r }) ≡ ok collapsed
    → x < 2 ^ 32
    → egress up collapsed (v4 x) ≡ egress up st (v4 x)
unfolding policy_iface
egress-collapse_ipv4 p r st collapsed up x ipv4 shrunk whole compiled small =
    let (s, found, same) = collapse_ipv4-covers p.direct_prefixes ipv4 in
    let equal : s ≡ r = cc (found, shrunk) in
    let covered : covers r x ≡ covers p.direct_prefixes x =
      ap (λ l. covers l x) (sym equal) ∙ same x in
    egress-compile (record p { direct_prefixes = r }) collapsed up x compiled small
    ∙ ap
        (λ b.
          if not (before_main p)
            || (any (λ l. contains l (v4 x)) p.lans || addr_eq p.tunnel_endpoint (v4 x) || b)
          then direct
          else if p.tunnel_up && up (policy_iface p)
          then tunnel (policy_iface p)
          else blackholed)
        covered
    ∙ sym (egress-compile p st up x whole small)
