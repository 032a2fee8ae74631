-- ===== src/Policy/Gateway.antt =====
-- What a compiled policy does with packets, and when there is one.
use go_run.Prelude.{
  ℕ, ◌≡◌, refl, ◌↔◌, ◌≢◌, String, Bool, true, false, not, ◌&&◌, ◌||◌, none, some, List, [], ◌∷◌,
  str_eq, int_eq, int_eq_refl, int_less, pos, ◌/◌, ◌^◌, ◌<◌, ◌==◌, if◌then◌else◌, any, all, arith,
  Bool-cases, inl, inr,
}
use go_run.Prelude.Result.{ok}
use go_run.Netip.{
  Addr, v4, v6, Prefix, addr, addr_eq, contains, is6, is_set, is_valid, bits_plus_one,
}
use go_run.Policy.{Policy, DesiredKernelState, default_clients_iface}
use go_run.Policy.Compile.{
  compile, desired_state, inbound_managed, policy_mark, policy_iface, policy_table, policy_priority,
  check_direct, is_empty,
}
use go_run.Policy.Datapath.{
  run_chains, route_marked, best_route, egress_by, main_priority, direct, tunnel, blackholed,
  dropped, egress, drops,
}

-- The destinations that a policy sends direct.
abbrev pub goes_direct : Policy → Addr → Bool
goes_direct p dst =
    any (λ l. contains l dst) p.lans
    || addr_eq p.tunnel_endpoint dst
    || any (λ d. contains d dst) p.direct_prefixes

-- The rule of the policy comes before the one of the main table: no priority is given, or a smaller
-- one.
abbrev pub before_main : Policy → Bool
before_main p = int_eq p.rule_priority (pos 0) || int_less p.rule_priority main_priority

before_main_lem : (p : Policy) → int_less (policy_priority p) main_priority ≡ before_main p
unfolding policy_priority
before_main_lem p = elim (Bool-cases (int_eq p.rule_priority (pos 0))) [
  | inl e ↦ rw e refl
  | inr e ↦ rw e refl
]

pub compile-eq : (p : Policy) {st : DesiredKernelState} → compile p ≡ ok st → st ≡ desired_state p
unfolding compile
compile-eq p h = ground arith

pub policy_mark-ne-zero : (p : Policy) → policy_mark p ≢ 0
unfolding policy_mark
policy_mark-ne-zero p = ground arith

module _ (p : Policy) where
  marks :
      (x : ℕ)
      → is_set p.tunnel_endpoint ≡ true
      → run_chains (desired_state p).nft.sets (desired_state p).nft.chains 0 (v4 x)
        ≡ some (if goes_direct p (v4 x) then 0 else policy_mark p)
  unfolding run_chains desired_state is6
  marks x h = ground arith

  -- What the lookup of the tunnel's table comes to
  best_lookup :
      (up : String → Bool) (x : ℕ)
      → x < 2 ^ 32
      → elim (best_route up (policy_table p) (v4 x) (desired_state p).routes) [
        | none ↦ direct
        | some r ↦ egress_by r
      ]
        ≡ (if p.tunnel_up && up (policy_iface p) then tunnel (policy_iface p) else blackholed)
  unfolding desired_state best_route bits_plus_one contains
  best_lookup up x h =
      let everywhere : (x / 2 ^ 32 == 0 / 2 ^ 32) ≡ true = ground arith in
      elim (Bool-cases p.tunnel_up) [
        | inl t ↦ elim (Bool-cases (up (policy_iface p))) [
          | inl u ↦ rw (t, int_eq_refl (policy_table p), everywhere, u) refl
          | inr u ↦ rw (t, int_eq_refl (policy_table p), everywhere, u) refl
        ]
        | inr t ↦ rw (t, int_eq_refl (policy_table p), everywhere) refl
      ]

  pub unmarked :
      (up : String → Bool) (dst : Addr)
      → route_marked up (desired_state p).ip_rules (desired_state p).routes 0 dst ≡ direct
  unfolding route_marked desired_state
  unmarked up dst = ground (arith, policy_mark-ne-zero p)

  pub marked :
      (up : String → Bool) (x : ℕ)
      → x < 2 ^ 32
      → route_marked up (desired_state p).ip_rules (desired_state p).routes (policy_mark p) (v4 x)
        ≡ (if not (before_main p)
            then direct
            else if p.tunnel_up && up (policy_iface p)
            then tunnel (policy_iface p)
            else blackholed)
  unfolding route_marked desired_state
  marked up x h =
      let same : (policy_mark p == policy_mark p) ≡ true = ground arith in
      elim (Bool-cases (before_main p)) [
        | inl e ↦ rw (before_main_lem p, e, same) (best_lookup up x h)
        | inr e ↦ rw (before_main_lem p, e) refl
      ]

endpoint_set :
    (p : Policy) {st : DesiredKernelState} → compile p ≡ ok st → is_set p.tunnel_endpoint ≡ true
unfolding compile
endpoint_set p h = ground arith

egress_step :
    (up : String → Bool) (st : DesiredKernelState) (dst : Addr) {m : ℕ}
    → run_chains st.nft.sets st.nft.chains 0 dst ≡ some m
    → egress up st dst ≡ route_marked up st.ip_rules st.routes m dst
unfolding egress
egress_step up st dst e = rw (e, egress)

-- For a policy that compiles, whichever devices are up, an IPv4 packet goes direct if its
-- destination lies in a LAN or in a direct prefix or is the tunnel endpoint, or if the policy
-- names a rule priority of 32766 or more, so that its rule comes after the one of the main table. Any
-- other goes into the tunnel while the policy has it up and its device is up, and is blackholed
-- otherwise: it never falls through to the main table.
pub egress-compile :
    (p : Policy) (st : DesiredKernelState) (up : String → Bool) (x : ℕ)
    → compile p ≡ ok st
    → x < 2 ^ 32
    → egress up st (v4 x) ≡ (
        if not (before_main p) || goes_direct p (v4 x)
        then direct
        else if p.tunnel_up && up (policy_iface p)
        then tunnel (policy_iface p)
        else blackholed)
egress-compile p st up x h small =
    rw (compile-eq p h, egress_step up (desired_state p) (v4 x) (marks p x (endpoint_set p h)))
      (elim (Bool-cases (goes_direct p (v4 x))) [
        | inl e ↦ ground (arith, e, unmarked p up (v4 x))
        | inr e ↦ ground (arith, e, marked p up x small)
      ])

-- A policy that compiles drops every IPv6 packet on the way in.
pub egress-compile_ipv6 :
    (p : Policy) (st : DesiredKernelState) (up : String → Bool) (x : ℕ)
    → compile p ≡ ok st
    → egress up st (v6 x) ≡ dropped
unfolding egress desired_state is6
egress-compile_ipv6 p st up x h = rw (compile-eq p h) (ground arith)

-- A policy that compiles drops a packet from the clients interface to an IPv4 address of a LAN
-- exactly when the inbound interface is managed, and drops no other forwarded IPv4 packet.
pub drops-compile :
    (p : Policy) (st : DesiredKernelState) (iif : String) (x : ℕ)
    → compile p ≡ ok st
    → drops st iif (v4 x) ≡ (
        inbound_managed p
        && str_eq default_clients_iface iif
        && any (λ l. contains l (v4 x)) p.lans)
unfolding drops desired_state
drops-compile p st iif x h = rw (compile-eq p h) (ground arith)

-- What `Compile` asks of a policy.
pub record IsDeployable (p : Policy) : Type 0 where
  pub endpoint : is_set p.tunnel_endpoint ≡ true
  pub direct_ipv4 : all (λ d. is_valid d && not (is6 (addr d))) p.direct_prefixes ≡ true
  pub home : inbound_managed p ≡ true → p.lans ≢ []

check_direct-ok :
    (ps : List Prefix)
    → (check_direct ps ≡ ok tt) ↔ (all (λ d. is_valid d && not (is6 (addr d))) ps ≡ true)
unfolding check_direct
check_direct-ok [] = (λ e. refl, λ e. refl)
check_direct-ok (p ∷ ps) = ground (arith, check_direct-ok ps)

is_empty-ne-nil {ℓ} : {A : Type ℓ} (xs : List A) → (is_empty xs ≡ false) ↔ (xs ≢ [])
unfolding is_empty
is_empty-ne-nil [] = (λ e. cc, λ n. absurd (n refl))
is_empty-ne-nil (x ∷ xs) = (λ e n. cc, λ n. refl)

to : (p : Policy) → compile p ≡ ok (desired_state p) → IsDeployable p
unfolding compile inbound_managed
to p h = record {
  endpoint = ground arith;
  direct_ipv4 = ground (arith, check_direct-ok p.direct_prefixes);
  home = λ m. (is_empty-ne-nil p.lans).0 (ground arith);
}

from : (p : Policy) → IsDeployable p → compile p ≡ ok (desired_state p)
unfolding compile inbound_managed
from p d = elim (Bool-cases (inbound_managed p)) [
  | inl m ↦
      let full = (is_empty-ne-nil p.lans).1 (d.home m) in
      ground (arith, (check_direct-ok p.direct_prefixes).1 d.direct_ipv4, d.endpoint)
  | inr m ↦ ground (arith, (check_direct-ok p.direct_prefixes).1 d.direct_ipv4, d.endpoint)
]

-- A policy compiles exactly when it has a tunnel endpoint, its direct prefixes are valid and not
-- IPv6, and it names a LAN if it manages the inbound interface.
pub compile_iff : (p : Policy) → (compile p ≡ ok (desired_state p)) ↔ IsDeployable p
compile_iff p = (to p, from p)
