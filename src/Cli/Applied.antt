-- ===== src/Cli/Applied.antt =====
-- What `gotun apply` comes to.
use mathlib.Core.Path.{subst}
use go_run.Prelude.{
  ℕ, ◌^◌, ◌<◌, ◌≡◌, ◌≢◌, refl, sym, ap, ◌∙◌, String, Bool, true, false, true≢false, not, str_eq,
  ◌&&◌, ◌||◌, Option, List, any, if◌then◌else◌,
}
use go_run.Prelude.Result.{Result, ok, err}
use go_run.Netip.{Addr, Prefix, v4, v6, addr_eq, contains}
use go_run.Collapse.Coverage.{covers, collapse_ipv4-covers}
use go_run.CidrList.Laws.{AllOk}
use go_run.Policy.{
  Policy, WireGuardConfig, DesiredKernelState, default_tunnel_iface, default_clients_iface,
}
use go_run.Policy.Compile.{PolicyError, compile, policy_iface, policy_priority, inbound_managed}
use go_run.Policy.Datapath.{direct, tunnel, blackholed, dropped, egress, drops}
use go_run.Policy.Gateway.{egress-compile, egress-compile_ipv6, drops-compile}
use go_run.Apply
use go_run.Apply.{Ways, Applied, not_compiled, stage_failed}
use go_run.Apply.Stages.{
  in_order, Succeeds, Stops, Ends, rejected, complete, stopped, reconcile-Ends,
}
use go_run.Cli.System.{Machine}
use go_run.Cli.Assemble.{CliError, apply_failed, panicked, ApplyArgs, assembled, policy_for}
use go_run.Cli.Commands.{Report, applied, then_write, after_apply, apply}
use go_run.Cli.Inputs.{IsAssembled, policy_for-IsAssembled, read_prefixes-AllOk}
use go_run.Cli.Calm.{policy_for-ne-panicked}

-- What a run of `apply` from the machine `w` came to
pub data Outcome (parse6 : String → Option ℕ) {W : Type 0} (m : Machine W) (ways : Ways)
    (a : ApplyArgs) (w : W) : Result CliError Report × W → Type 0 where
  unassembled :
      (e : CliError)
      → policy_for parse6 m a w ≡ err e
      → e ≢ panicked
      → Outcome parse6 m ways a w (err e, w)
  uncompiled :
      (p : Policy) (e : PolicyError)
      → IsAssembled parse6 m a w p
      → compile p ≡ err e
      → Outcome parse6 m ways a w (err (apply_failed (not_compiled e)), w)
  reconciled :
      (p : Policy) (st : DesiredKernelState) (n : ℕ) (w' : W)
      → IsAssembled parse6 m a w p
      → compile p ≡ ok st
      → Succeeds (in_order m.runner ways st) 0 w n w'
      → Outcome parse6 m ways a w (ok (applied n), w')
  interrupted :
      (p : Policy) (st : DesiredKernelState) (n : ℕ) (e : String) (w' : W)
      → IsAssembled parse6 m a w p
      → compile p ≡ ok st
      → Stops (in_order m.runner ways st) 0 w n e w'
      → Outcome parse6 m ways a w (err (apply_failed (stage_failed e)), w')

is_err : {E A : Type 0} → Result E A → Bool
is_err (ok a) = false
is_err (err e) = true

not_ok : {E A : Type 0} {e : E} {a : A} → ◌≡◌ {A = Result E A} (err e) (ok a) → ⊥
unfolding is_err
not_ok h = absurd (true≢false (ap is_err h))

module _ (short raw lans : List Prefix) (ep : Addr) (tunnel_up : Bool)
    (exit clients : WireGuardConfig) (st : DesiredKernelState)
    (c : compile (assembled short ep lans tunnel_up exit clients) ≡ ok st) where
  sends-assembled :
      (up : String → Bool) (x : ℕ)
      → covers short x ≡ covers raw x
      → x < 2 ^ 32
      → egress up st (v4 x) ≡ (
          if any (λ l. contains l (v4 x)) lans || addr_eq ep (v4 x) || covers raw x
          then direct
          else if tunnel_up && up default_tunnel_iface
          then tunnel default_tunnel_iface
          else blackholed)
  unfolding policy_iface policy_priority
  sends-assembled up x e small =
      rw (← e) (egress-compile (assembled short ep lans tunnel_up exit clients) st up x c small)

  isolates-assembled :
      (iif : String) (x : ℕ)
      → drops st iif (v4 x) ≡ (
          not (str_eq clients.private_key "")
          && str_eq default_clients_iface iif
          && any (λ l. contains l (v4 x)) lans)
  unfolding inbound_managed
  isolates-assembled iif x =
      drops-compile (assembled short ep lans tunnel_up exit clients) st iif x c

module _ (parse6 : String → Option ℕ) (W : Type 0) (m : Machine W) (ways : Ways) (a : ApplyArgs)
    (w : W) where
  -- A run of `gotun apply` ends in one of four ways, none of them a panic. The policy cannot be
  -- assembled: the run fails with the error of its assembly, and the machine is as it was. The
  -- policy is assembled and does not compile: the run fails, and the machine is as it was. The
  -- policy compiles and all stages run without an error. Or a stage fails: the run fails with the
  -- error of that stage, the stages before it ran without one, and no later stage runs.
  pub apply-Outcome : Outcome parse6 m ways a w (apply m parse6 ways a w)
  unfolding apply then_write
  apply-Outcome = of_policy (policy_for parse6 m a w) refl
    where
      of_end :
          (p : Policy)
          → IsAssembled parse6 m a w p
          → (x : Applied × W) → Ends m.runner ways p w x
          → Outcome parse6 m ways a w (after_apply x)
      of_end p h x (rejected e c) = uncompiled p e h c
      of_end p h x (complete st n w' c s) = reconciled p st n w' h c s
      of_end p h x (stopped st n e w' c s) = interrupted p st n e w' h c s

      of_policy :
          (x : Result CliError Policy)
          → policy_for parse6 m a w ≡ x
          → Outcome parse6 m ways a w
              (then_write x (λ p w'. after_apply (Apply.reconcile m.runner ways p w')) w)
      of_policy (err e) h =
          unassembled e h (λ k. policy_for-ne-panicked parse6 m w a (h ∙ ap err k))
      of_policy (ok p) h =
          of_end p (policy_for-IsAssembled parse6 m a w p h) (Apply.reconcile m.runner ways p w)
            (reconcile-Ends W m.runner ways p w)

  -- What stands behind a report of `n` changes on the way from the machine `w` to `w'`: the policy
  -- was assembled from what its arguments name, it compiled to a state, and the five stages ran for
  -- that state without an error. `sends` and the rest say what that state asks of packets.
  pub record IsReported (n : ℕ) (w' : W) : Type 0 where
    pub policy : Policy
    pub read : IsAssembled parse6 m a w policy
    pub state : DesiredKernelState
    pub compiled : compile policy ≡ ok state
    pub ran : Succeeds (in_order m.runner ways state) 0 w n w'
    pub sends :
        (up : String → Bool) (x : ℕ)
        → x < 2 ^ 32
        → egress up state (v4 x) ≡ (
            if any (λ l. contains l (v4 x)) read.lans
              || addr_eq read.endpoint (v4 x)
              || covers read.raw x
            then direct
            else if a.tunnel_up && up default_tunnel_iface
            then tunnel default_tunnel_iface
            else blackholed)
    pub isolates :
        (iif : String) (x : ℕ)
        → drops state iif (v4 x) ≡ (
            not (str_eq read.clients.private_key "")
            && str_eq default_clients_iface iif
            && any (λ l. contains l (v4 x)) read.lans)
    pub drops_ipv6 : (up : String → Bool) (x : ℕ) → egress up state (v6 x) ≡ dropped

  reported :
      (p : Policy) (st : DesiredKernelState) (n : ℕ) (w' : W) (h : IsAssembled parse6 m a w p)
      → compile p ≡ ok st
      → Succeeds (in_order m.runner ways st) 0 w n w'
      → IsReported n w'
  reported p st n w' h c s =
      let (short, same, cover) =
        collapse_ipv4-covers h.raw
          (subst AllOk h.prefixes_read (read_prefixes-AllOk parse6 m w a.prefixes_path)) in
      let equal : short ≡ h.short = cc (same, h.collapsed) in
      let built = subst (λ q. compile q ≡ ok st) h.policy_eq c in
      record {
        policy = p;
        read = h;
        state = st;
        compiled = c;
        ran = s;
        sends = λ up x small.
            sends-assembled h.short h.raw h.lans h.endpoint a.tunnel_up h.exit h.clients st built up
              x (ap (λ l. covers l x) (sym equal) ∙ cover x) small;
        isolates =
            isolates-assembled h.short h.raw h.lans h.endpoint a.tunnel_up h.exit h.clients st
              built;
        drops_ipv6 = λ up x. egress-compile_ipv6 p st up x c;
      }

  of_Outcome :
      (x : Result CliError Report × W) (n : ℕ) (w' : W)
      → Outcome parse6 m ways a w x
      → x ≡ (ok (applied n), w')
      → IsReported n w'
  of_Outcome x n w' (unassembled e h k) same = absurd (not_ok (ap (λ y. y.0) same))
  of_Outcome x n w' (uncompiled p e h c) same = absurd (not_ok (ap (λ y. y.0) same))
  of_Outcome x n w' (interrupted p st k e w'' h c s) same = absurd (not_ok (ap (λ y. y.0) same))
  of_Outcome x n w' (reconciled p st k w'' h c s) same =
      let count : k ≡ n = cc in
      let left : w'' ≡ w' = ap (λ y. y.1) same in
      subst (λ v. IsReported v w') count
        (subst (λ v. IsReported k v) left (reported p st k w'' h c s))

  -- If a run of `gotun apply` reports `n` changes, then the endpoint, the prefixes, the LANs and the
  -- configs that its arguments name were read, and the policy assembled from them compiles. The five
  -- stages (the kernel's parameters, the table of nftables, the exit tunnel, the clients interface,
  -- rules and routes) ran in this order for the compiled state, none with an error, with `n` changes
  -- in all, and left the machine as the run leaves it. What the compiled state asks for: an IPv4
  -- packet goes direct if its destination lies in a LAN that was read, is the endpoint, or lies in a
  -- prefix that was read; any other goes into the exit tunnel while -tunnel-up is set and the device
  -- is up, and is blackholed otherwise. A forwarded IPv4 packet is dropped exactly when it comes from
  -- the clients interface, goes to a LAN, and the config of the clients has a private key. IPv6
  -- packets are dropped on the way in. That the host is then as the state asks is not stated.
  pub apply-IsReported :
      (n : ℕ) (w' : W) → apply m parse6 ways a w ≡ (ok (applied n), w') → IsReported n w'
  apply-IsReported n w' e = of_Outcome (apply m parse6 ways a w) n w' apply-Outcome e
