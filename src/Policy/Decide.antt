-- ===== src/Policy/Decide.antt =====
-- Equality of kernel states is decided, and so is `SemanticEqual`.
use mathlib.Core.HLevel.{Discrete}
use native.Mathlib.Decide.{ℕ_discrete}
use go_run.Prelude.{ℤ, String, str_eq, eq_iff, inl, inr, sym, ◌∙◌, true≢false, Bool-cases}
use go_run.Netip.{Addr, Prefix}
use go_run.Policy.{
  SysctlSpec, NftSetSpec, NftRuleSpec, NftChainSpec, NftSpec, IpRuleSpec, RouteSpec, WireGuardSpec,
  WireGuardPeer, DesiredKernelState,
}
use go_run.Policy.Semantic.{normalize_state, SemanticEqual}

String-discrete : Discrete String
String-discrete s t = elim (Bool-cases (str_eq s t)) [
  | inl e ↦ yes ((eq_iff s t).0 e)
  | inr e ↦ no (λ h. true≢false (sym ((eq_iff s t).1 h) ∙ e))
]

Addr-discrete : Discrete Addr
Addr-discrete = hlevel ℕ_discrete

Prefix-discrete : Discrete Prefix
Prefix-discrete = hlevel (Addr-discrete, ℕ_discrete)

ℤ-discrete : Discrete ℤ
ℤ-discrete = hlevel ℕ_discrete

SysctlSpec-discrete : Discrete SysctlSpec
SysctlSpec-discrete = hlevel String-discrete

NftSetSpec-discrete : Discrete NftSetSpec
NftSetSpec-discrete = hlevel (String-discrete, Prefix-discrete)

NftRuleSpec-discrete : Discrete NftRuleSpec
NftRuleSpec-discrete = hlevel (String-discrete, Prefix-discrete, Addr-discrete, ℕ_discrete)

NftChainSpec-discrete : Discrete NftChainSpec
NftChainSpec-discrete = hlevel (String-discrete, ℤ-discrete, NftRuleSpec-discrete)

NftSpec-discrete : Discrete NftSpec
NftSpec-discrete = hlevel (String-discrete, NftSetSpec-discrete, NftChainSpec-discrete)

IpRuleSpec-discrete : Discrete IpRuleSpec
IpRuleSpec-discrete = hlevel (ℤ-discrete, ℕ_discrete)

RouteSpec-discrete : Discrete RouteSpec
RouteSpec-discrete = hlevel (ℤ-discrete, Prefix-discrete, String-discrete)

WireGuardPeer-discrete : Discrete WireGuardPeer
WireGuardPeer-discrete = hlevel (String-discrete, Prefix-discrete, ℤ-discrete)

WireGuardSpec-discrete : Discrete WireGuardSpec
WireGuardSpec-discrete =
    hlevel (String-discrete, ℤ-discrete, Prefix-discrete, WireGuardPeer-discrete)

pub DesiredKernelState-discrete : Discrete DesiredKernelState
DesiredKernelState-discrete = hlevel (
  SysctlSpec-discrete, NftSpec-discrete, IpRuleSpec-discrete, RouteSpec-discrete,
  WireGuardSpec-discrete,
)

-- `SemanticEqual` as it runs
unfoldable pub semantic_equal : (a b : DesiredKernelState) → Dec (SemanticEqual a b)
unfolding normalize_state
semantic_equal a b = DesiredKernelState-discrete (normalize_state a) (normalize_state b)
