-- ===== src/Apply/Stages.antt =====
-- In which order the subsystems are reconciled, and what an error leaves behind.
use go_run.Prelude.{ℕ, ◌+◌, ◌≡◌, refl, String, Option, none, some, List, [], ◌∷◌}
use go_run.Prelude.Result.{Result, ok, err}
use go_run.Strings.{◌<>◌}
use go_run.Policy.{Policy, DesiredKernelState}
use go_run.Policy.Compile.{PolicyError, compile}
use go_run.Linux.{Runner}
use go_run.Linux.Sysctl
use go_run.Linux.Routing
use go_run.Linux.Nftables.Reconcile
use go_run.WireGuard
use go_run.Apply.{
  not_compiled, stage_failed, Applied, Stage, after_stage, run_stages, Ways, stages_of,
  apply_compiled, reconcile,
}

-- `Succeeds stages total k n k'`: from the host `k` all stages run without an error, one after the
-- other; they leave `k'`, and count the changes from `total` up to `n`.
pub data Succeeds {K : Type 0} : List (String × Stage K) → ℕ → K → ℕ → K → Type 0 where
  done : (total : ℕ) (k : K) → Succeeds [] total k total k
  next :
      (name : String) (stage : Stage K) (stages : List (String × Stage K)) (total c n : ℕ)
      (k k1 k2 : K)
      → stage k ≡ ((c, none), k1)
      → Succeeds stages (total + c) k1 n k2
      → Succeeds ((name, stage) ∷ stages) total k n k2

-- `Stops stages total k n e k'`: some stages run without an error, and the one after them fails; it
-- leaves `k'`, and no later stage runs. The error has the name of the stage in front.
pub data Stops {K : Type 0} : List (String × Stage K) → ℕ → K → ℕ → String → K → Type 0 where
  here :
      (name : String) (stage : Stage K) (stages : List (String × Stage K)) (total c : ℕ)
      (e : String) (k k1 : K)
      → stage k ≡ ((c, some e), k1)
      → Stops ((name, stage) ∷ stages) total k (total + c) (name <> ": " <> e) k1
  later :
      (name : String) (stage : Stage K) (stages : List (String × Stage K)) (total c n : ℕ)
      (e : String) (k k1 k2 : K)
      → stage k ≡ ((c, none), k1)
      → Stops stages (total + c) k1 n e k2
      → Stops ((name, stage) ∷ stages) total k n e k2

-- The stages and their order as the README lists them: parameters of the kernel, the table of
-- nftables, the exit tunnel, the interface of the clients, rules and routes.
abbrev pub in_order : {K : Type 0} → Runner K → Ways → DesiredKernelState → List (String × Stage K)
in_order r ways st =
    ("sysctl", λ k. Sysctl.reconcile r st.sysctls k)
    ∷ ("nftables", λ k. Reconcile.reconcile r ways.parse_json st.nft k)
    ∷ ("wireguard", λ k. WireGuard.reconcile r st.wire_guard k)
    ∷ ("wireguard-clients", λ k. WireGuard.reconcile r st.wire_guard_clients k)
    ∷ ("routing", λ k. Routing.reconcile r ways.order st.ip_rules st.routes k)
    ∷ []

-- What an application of the policy came to
pub data Ends {K : Type 0} (r : Runner K) (ways : Ways) (p : Policy) (k : K)
    : Applied × K → Type 0 where
  rejected :
      (e : PolicyError)
      → compile p ≡ err e
      → Ends r ways p k (record { changes = 0; state = none; error = some (not_compiled e) }, k)
  complete :
      (st : DesiredKernelState) (n : ℕ) (k' : K)
      → compile p ≡ ok st
      → Succeeds (in_order r ways st) 0 k n k'
      → Ends r ways p k (record { changes = n; state = some st; error = none }, k')
  stopped :
      (st : DesiredKernelState) (n : ℕ) (e : String) (k' : K)
      → compile p ≡ ok st
      → Stops (in_order r ways st) 0 k n e k'
      → Ends r ways p k (record { changes = n; state = some st; error = some (stage_failed e) }, k')

-- What the stages came to
data Ran {K : Type 0} (st : DesiredKernelState) (stages : List (String × Stage K)) (total : ℕ)
    (k : K) : Applied × K → Type 0 where
  all_fine :
      (n : ℕ) (k' : K)
      → Succeeds stages total k n k'
      → Ran st stages total k (record { changes = n; state = some st; error = none }, k')
  one_failed :
      (n : ℕ) (e : String) (k' : K)
      → Stops stages total k n e k'
      → Ran st stages total k
          (record { changes = n; state = some st; error = some (stage_failed e) }, k')

module _ {K : Type 0} (st : DesiredKernelState) where
  run_stages-Ran :
      (stages : List (String × Stage K)) (total : ℕ) (k : K)
      → Ran st stages total k (run_stages st stages total k)
  unfolding run_stages after_stage
  run_stages-Ran [] total k = all_fine total k (done total k)
  run_stages-Ran ((name, stage) ∷ stages) total k =
      of_stage (λ n k1. run_stages-Ran stages n k1) (stage k) refl
    where
      extend :
          (c : ℕ) (k1 : K)
          → stage k ≡ ((c, none), k1)
          → (x : Applied × K) → Ran st stages (total + c) k1 x
          → Ran st ((name, stage) ∷ stages) total k x
      extend c k1 e x (all_fine n k2 s) =
          all_fine n k2 (next name stage stages total c n k k1 k2 e s)
      extend c k1 e x (one_failed n m k2 s) =
          one_failed n m k2 (later name stage stages total c n m k k1 k2 e s)

      of_stage :
          ((n : ℕ) (k1 : K) → Ran st stages n k1 (run_stages st stages n k1))
          → (x : (ℕ × Option String) × K) → stage k ≡ x
          → Ran st
              ((name, stage) ∷ stages)
              total
              k
              (after_stage st name total x (run_stages st stages))
      of_stage rest ((c, none), k1) e =
          extend c k1 e (run_stages st stages (total + c) k1) (rest (total + c) k1)
      of_stage rest ((c, some m), k1) e =
          one_failed (total + c) (name <> ": " <> m) k1 (here name stage stages total c m k k1 e)

-- An application of a policy ends in one of three ways. The policy does not compile: no stage runs
-- and the host is untouched. All five stages run without an error, in this order: the kernel's
-- parameters, the table of nftables, the exit tunnel, the clients interface, and rules and routes,
-- each with its part of the compiled state; the result counts all their changes. Or some of them
-- run, the one after them fails, no later one runs, and the error carries the name of the stage that
-- failed.
pub reconcile-Ends :
    (K : Type 0) (r : Runner K) (ways : Ways) (p : Policy) (k : K)
    → Ends r ways p k (reconcile r ways p k)
unfolding reconcile apply_compiled stages_of
reconcile-Ends K r ways p k = of_compiled (compile p) refl
  where
    ended :
        (st : DesiredKernelState)
        → compile p ≡ ok st
        → (x : Applied × K) → Ran st (in_order r ways st) 0 k x
        → Ends r ways p k x
    ended st e x (all_fine n k1 s) = complete st n k1 e s
    ended st e x (one_failed n m k1 s) = stopped st n m k1 e s

    of_compiled :
        (c : Result PolicyError DesiredKernelState)
        → compile p ≡ c
        → Ends r ways p k (apply_compiled r ways c k)
    of_compiled (err e) h = rejected e h
    of_compiled (ok st) h =
        ended st h (run_stages st (in_order r ways st) 0 k)
          (run_stages-Ran st (in_order r ways st) 0 k)
