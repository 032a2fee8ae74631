-- ===== src/Apply.antt =====
-- internal/apply/reconcile.go: a policy is compiled, and the subsystems are reconciled one after the
-- other over a `Runner`.
pub mod Stages
mod Tests
use go_run.Prelude.{ℕ, ◌+◌, ℤ, pos, String, Option, none, some, List, [], ◌∷◌}
use go_run.Prelude.Result.{Result, ok, err}
use go_run.Strings.{◌<>◌}
use go_run.Policy.{
  Policy, RouteSpec, DesiredKernelState, default_tunnel_iface, default_clients_iface,
  default_rule_priority, default_table_id, owned_nft_family, owned_nft_table,
}
use go_run.Policy.Compile.{PolicyError, compile}
use go_run.Json.{Json}
use go_run.Linux.{Runner}
use go_run.Linux.Sysctl
use go_run.Linux.Routing
use go_run.Linux.Nftables.Reconcile
use go_run.WireGuard

pub data ApplyError : Type 0 where
  not_compiled : PolicyError → ApplyError
  stage_failed : String → ApplyError

-- `Result` and the error beside it; without a state the result is the zero value
pub record Applied : Type 0 where
  pub changes : ℕ
  pub state : Option DesiredKernelState
  pub error : Option ApplyError

abbrev pub Stage : Type 0 → Type 0
Stage K = K → (ℕ × Option String) × K

-- What a stage came to: its changes are counted, and the stages after it run or its error ends it.
unfoldable pub after_stage :
    {K : Type 0}
    → DesiredKernelState
    → String
    → ℕ
    → (ℕ × Option String) × K
    → (ℕ → K → Applied × K)
    → Applied × K
after_stage st name total ((c, none), k) next = next (total + c) k
after_stage st name total ((c, some e), k) next = (
  record { changes = total + c; state = some st; error = some (stage_failed (name <> ": " <> e)) },
  k,
)

-- The stages, the changes so far being `total`
unfoldable pub run_stages :
    {K : Type 0} → DesiredKernelState → List (String × Stage K) → ℕ → K → Applied × K
unfolding after_stage
run_stages st [] total k = (record { changes = total; state = some st; error = none }, k)
run_stages st ((name, stage) ∷ stages) total k =
    after_stage st name total (stage k) (run_stages st stages)

-- What the runs of the subsystems take beside the state: the parser of JSON, and the order in which
-- the map of routing tables is walked
pub record Ways : Type 0 where
  pub parse_json : String → Option Json
  pub order : List (ℤ × List RouteSpec) → List (ℤ × List RouteSpec)

module _ {K : Type 0} (r : Runner K) where
  unfoldable pub stages_of : Ways → DesiredKernelState → List (String × Stage K)
  unfolding Sysctl.reconcile Reconcile.reconcile WireGuard.reconcile Routing.reconcile
  stages_of ways st =
      ("sysctl", Sysctl.reconcile r st.sysctls)
      ∷ ("nftables", Reconcile.reconcile r ways.parse_json st.nft)
      ∷ ("wireguard", WireGuard.reconcile r st.wire_guard)
      ∷ ("wireguard-clients", WireGuard.reconcile r st.wire_guard_clients)
      ∷ ("routing", Routing.reconcile r ways.order st.ip_rules st.routes)
      ∷ []

  unfoldable pub apply_compiled : Ways → Result PolicyError DesiredKernelState → K → Applied × K
  unfolding run_stages stages_of
  apply_compiled ways (err e) k =
      (record { changes = 0; state = none; error = some (not_compiled e) }, k)
  apply_compiled ways (ok st) k = run_stages st (stages_of ways st) 0 k

  -- `Reconcile`
  unfoldable pub reconcile : Ways → Policy → K → Applied × K
  unfolding apply_compiled compile
  reconcile ways p k = apply_compiled ways (compile p) k

  -- `Clear`; errors are ignored
  unfoldable pub clear : K → K
  unfolding WireGuard.clear Routing.clear Reconcile.clear
  clear k =
      let (out, k1) = WireGuard.clear r default_tunnel_iface k in
      let (out2, k2) = WireGuard.clear r default_clients_iface k1 in
      let k3 = Routing.clear r default_rule_priority default_table_id k2 in
      let (out4, k4) = Reconcile.clear r owned_nft_family owned_nft_table k3 in k4
